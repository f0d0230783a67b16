-- ===== src/Lifecycle/Tx/Keeps.antt =====
-- What a transaction keeps, whether it commits or not, composed along its body.
use git_hub_action_cache_ser.Prelude.{Bool, true, false, if◌then◌else◌}
use git_hub_action_cache_ser.Db.{Db}
use git_hub_action_cache_ser.Lifecycle.Tx.{
  Action, Result, ok, err, Error, ◌>>=◌, pure, raise, gets, transaction,
}

pub record Keeps (P : Db → Type 0) {A : Type 0} (m : Action A) : Type 0 where
  pub apply : (db : Db) → P db → P (m db).1

module _ {P : Db → Type 0} where
  pub pure-Keeps : {A : Type 0} (a : A) → Keeps P (pure a)
  unfolding pure
  pure-Keeps a = record { apply = λ db p. p }

  pub raise-Keeps : {A : Type 0} (e : Error) → Keeps P (raise {A = A} e)
  unfolding raise
  raise-Keeps e = record { apply = λ db p. p }

  pub gets-Keeps : {A : Type 0} (f : Db → A) → Keeps P (gets f)
  unfolding gets
  gets-Keeps f = record { apply = λ db p. p }

  -- From one state: the first part is known to keep the invariant there.
  pub bind-keeps_at :
      {A B : Type 0} (m : Action A) (f : A → Action B) (db : Db)
      → P (m db).1
      → ((a : A) → Keeps P (f a))
      → P ((m >>= f) db).1
  unfolding ◌>>=◌
  bind-keeps_at {A} {B} m f db p hf = go (m db).0 (m db).1 p
    where
      go :
          (r : Result A) (db' : Db)
          → P db'
          → P ((let k : Result B × Db = elim r [ ok a ↦ f a db' | err e ↦ (err e, db') ] in k).1)
      go (ok a) db' p' = (hf a).apply db' p'
      go (err e) db' p' = p'

  pub bind-Keeps :
      {A B : Type 0} {m : Action A} {f : A → Action B}
      → Keeps P m
      → ((a : A) → Keeps P (f a))
      → Keeps P (m >>= f)
  bind-Keeps {m} {f} hm hf = record { apply = λ db p. bind-keeps_at m f db (hm.apply db p) hf }

  -- A query whose answer the rest of the body depends on.
  pub gets_bind-Keeps :
      {A B : Type 0} (f : Db → A) (k : A → Action B)
      → ((db : Db) → P db → P (k (f db) db).1)
      → Keeps P (gets f >>= k)
  unfolding ◌>>=◌ gets
  gets_bind-Keeps f k h = record { apply = h }

  pub transaction-Keeps : {A : Type 0} {m : Action A} → Keeps P m → Keeps P (transaction m)
  unfolding transaction
  transaction-Keeps {A} {m} hm = record {
    apply = λ db p. go db p (m db).0 (m db).1 (hm.apply db p);
  }
    where
      go :
          (db : Db)
          → P db
          → (r : Result A) (db' : Db) → P db'
          → P ((let k : Result A × Db = elim r [ ok a ↦ (ok a, db') | err e ↦ (err e, db) ] in k).1)
      go db p (ok a) db' p' = p'
      go db p (err e) db' p' = p

  pub if-Keeps :
      {A : Type 0} (b : Bool) {m n : Action A}
      → Keeps P m
      → Keeps P n
      → Keeps P (if b then m else n)
  if-Keeps true hm hn = hm
  if-Keeps false hm hn = hn

pub ruleset keeps = (pure-Keeps, raise-Keeps, gets-Keeps, bind-Keeps, transaction-Keeps, if-Keeps)
