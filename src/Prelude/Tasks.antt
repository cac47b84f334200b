-- ===== src/Prelude/Tasks.antt =====
-- An `async` body: it runs against an environment `W` (the API server and what else answers its
-- calls) and returns its result beside the environment that its calls left.
use koprs.Prelude.Results.{Result, ok, err}

abbrev pub Task : Type 0 → Type 0 → Type 0 → Type 0
Task W E A = W → Result E A × W

abbrev pub done : {W E A : Type 0} → Result E A → Task W E A
done r w = (r, w)

-- What follows the result of a call, if there is one.
abbrev pub continue : {W E A B : Type 0} → Result E A → (A → Task W E B) → Task W E B
continue (ok a) f w = f a w
continue (err e) f w = (err e, w)

-- `call.await?` and the rest of the body.
infixl 5 ◌>>=◌ ◌>>◌
abbrev pub ◌>>=◌ : {W E A B : Type 0} → Task W E A → (A → Task W E B) → Task W E B
◌>>=◌ m f w = continue (m w).0 f (m w).1

abbrev pub ◌>>◌ : {W E B : Type 0} → Task W E (Unit {0}) → Task W E B → Task W E B
m >> k = m >>= λ _. k

-- `call.await` whose result the body matches on itself.
abbrev pub then : {W E F A B : Type 0} → Task W E A → (Result E A → Task W F B) → Task W F B
then m f w = f (m w).0 (m w).1
