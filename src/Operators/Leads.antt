-- ===== src/Operators/Leads.antt =====
-- What a body leads to: a condition on the environment before it, one after it returns a value and
-- one after it returns an error.
use koprs.Prelude.{Bool, true, false, if◌then◌else◌, Result, ok, err}
use koprs.Prelude.Tasks.{Task, done, continue, ◌>>=◌}

abbrev pub After : {W E A : Type 0} → (W → Type 0) → (W → Type 0) → Result E A × W → Type 0
After Q R (ok a, w) = Q w
After Q R (err e, w) = R w

pub record Leads {W E A : Type 0} (P Q R : W → Type 0) (m : Task W E A) : Type 0 where
  pub from : (w : W) → P w → After Q R (m w)

-- A body keeps a condition, whatever it returns.
pub record Keeps {W E A : Type 0} (P : W → Type 0) (m : Task W E A) : Type 0 where
  pub across : (w : W) → P w → P (m w).1

module _ {W E A : Type 0} where
  continue_leads :
      {B : Type 0} (Q S R : W → Type 0) (f : A → Task W E B) (r : Result E A) (w : W)
      → After Q R (r, w)
      → ((a : A) → Leads Q S R (f a))
      → After S R (continue r f w)
  continue_leads Q S R f (ok a) w q next = (next a).from w q
  continue_leads Q S R f (err e) w r next = r

  continue_keeps :
      {B : Type 0} (P : W → Type 0) (f : A → Task W E B) (r : Result E A) (w : W)
      → P w
      → ((a : A) → Keeps P (f a))
      → P (continue r f w).1
  continue_keeps P f (ok a) w p next = (next a).across w p
  continue_keeps P f (err e) w p next = p

  after_both : (Q R : W → Type 0) (r : Result E A) (w : W) → Q w → (Q w → R w) → After Q R (r, w)
  after_both Q R (ok a) w q back = q
  after_both Q R (err e) w q back = back q

  pub bind-Leads :
      {B : Type 0} {m : Task W E A} {f : A → Task W E B} {P Q S R : W → Type 0}
      → Leads P Q R m
      → ((a : A) → Leads Q S R (f a))
      → Leads P S R (m >>= f)
  bind-Leads {m = m} {f} {Q = Q} {S} {R} first next = record {
    from = λ w p. continue_leads Q S R f (m w).0 (m w).1 (first.from w p) next;
  }

  pub bind-Keeps :
      {B : Type 0} {m : Task W E A} {f : A → Task W E B} {P : W → Type 0}
      → Keeps P m
      → ((a : A) → Keeps P (f a))
      → Keeps P (m >>= f)
  bind-Keeps {m = m} {f} {P} first next = record {
    across = λ w p. continue_keeps P f (m w).0 (m w).1 (first.across w p) next;
  }

  pub done-Keeps : {P : W → Type 0} (r : Result E A) → Keeps P (done r)
  done-Keeps r = record { across = λ w p. p }

  pub done-Leads :
      {P Q R : W → Type 0} (r : Result E A)
      → ((w : W) → P w → Q w)
      → ((w : W) → P w → R w)
      → Leads P Q R (done r)
  done-Leads (ok a) good bad = record { from = good }
  done-Leads (err e) good bad = record { from = bad }

  pub if_Keeps :
      {P : W → Type 0} (b : Bool) {m n : Task W E A}
      → Keeps P m
      → Keeps P n
      → Keeps P (if b then m else n)
  if_Keeps true l r = l
  if_Keeps false l r = r

  pub if_Leads :
      {P Q R : W → Type 0} (b : Bool) {m n : Task W E A}
      → Leads P Q R m
      → Leads P Q R n
      → Leads P Q R (if b then m else n)
  if_Leads true l r = l
  if_Leads false l r = r

  -- What is kept holds at both ends.
  pub Keeps-Leads :
      {m : Task W E A} {Q R : W → Type 0} → Keeps Q m → ((w : W) → Q w → R w) → Leads Q Q R m
  Keeps-Leads {m = m} {Q} {R} keeps back = record {
    from = λ w q. after_both Q R (m w).0 (m w).1 (keeps.across w q) (back (m w).1);
  }

  -- What does not depend on the environment is kept beside what is.
  pub and_Keeps :
      {m : Task W E A} {P : W → Type 0} {Fixed : Type 0} → Keeps P m → Keeps (λ w. P w × Fixed) m
  and_Keeps keeps = record { across = λ w p. (keeps.across w p.0, p.1) }

  after_mono :
      (Q S R : W → Type 0) (r : Result E A) (w : W)
      → ((w : W) → Q w → S w)
      → After Q R (r, w)
      → After S R (r, w)
  after_mono Q S R (ok a) w up q = up w q
  after_mono Q S R (err e) w up r = r

  -- A weaker condition after it.
  pub Leads-mono :
      {m : Task W E A} {P Q S R : W → Type 0}
      → Leads P Q R m
      → ((w : W) → Q w → S w)
      → Leads P S R m
  Leads-mono {m = m} {P} {Q} {S} {R} lead up = record {
    from = λ w p. after_mono Q S R (m w).0 (m w).1 up (lead.from w p);
  }
