-- ===== src/Database/Keeps.antt =====
-- Invariants of the database under calls and sequences of them.
use service_courier_platform.Prelude.{inl, inr, String, ◌≡◌, refl, sym, subst}
use service_courier_platform.Errors.{Result, ok, err}
use service_courier_platform.Database.{Db, M, ◌>>=◌, ◌>>◌, after, relabel, labelled, call, exec}
use service_courier_platform.Database.Calls.{exec_state}

-- Whatever the call returns, it keeps `P`.
pub record Keeps (P : Db → Type 0) {A : Type 0} (m : M A) : Type 0 where
  pub at : (db : Db) → P db → P (m db).1

pub relabel_state : {A : Type 0} (l : String) (o : Result A × Db) → (relabel l o).1 ≡ o.1
relabel_state l (ok a, db) = refl
relabel_state l (err e, db) = refl

module _ {P : Db → Type 0} {A : Type 0} where
  after-keeps :
      {B : Type 0} (o : Result A × Db) (f : A → M B)
      → P o.1
      → ((a : A) → Keeps P (f a))
      → P (after o f).1
  after-keeps (ok a, db) f h k = (k a).at db h
  after-keeps (err e, db) f h k = h

  pub bind-Keeps :
      {B : Type 0} {m : M A} {f : A → M B}
      → Keeps P m
      → ((a : A) → Keeps P (f a))
      → Keeps P (m >>= f)
  bind-Keeps {m} {f} h k = record { at = λ db p. after-keeps (m db) f (h.at db p) k }

  pub then-Keeps : {B : Type 0} {m : M A} {n : M B} → Keeps P m → Keeps P n → Keeps P (m >> n)
  then-Keeps {m} {n} h k = record { at = λ db p. after-keeps (m db) (λ _. n) (h.at db p) (λ _. k) }

  pub labelled-Keeps : (l : String) {m : M A} → Keeps P m → Keeps P (labelled l m)
  labelled-Keeps l {m} h = record {
    at = λ db p. subst P (sym (relabel_state l (m db))) (h.at db p);
  }

  pub exec-Keeps : {m : M A} → Keeps P call → Keeps P m → Keeps P (exec m)
  exec-Keeps {m} h k = record {
    at = λ db p. elim (exec_state m db) [
      | inl e ↦ subst P (sym e) (h.at db p)
      | inr e ↦ subst P (sym e) (k.at (call db).1 (h.at db p))
    ];
  }
