-- ===== src/Runtime/Laws.antt =====
-- What the steps of a service of Runtime leave as it was, and the inversion of its chains.
use ovek.Common.{
  ◌≡◌, refl, ap, ◌∙◌, arith, ◌⊎◌, inl, inr, Option, none, some, Bool, true, false, if◌then◌else◌,
}
use ovek.Store.{Db, Failure}
use ovek.Store.Sql.{Result, ok, err, Result-cases}
use ovek.Runtime.{
  ServiceError, runtime_failed, store_failed, RuntimeError, Call, Answer, done, refused, Flow,
  ◌>>=◌, ◌>>◌, return, if_present, call, attempt, ask, transact,
}

pub Answer-cases :
    {E A : Type 0} (answer : Answer E A)
    → ((a : A) × (answer ≡ done a)) ⊎ ((e : E) × (answer ≡ refused e))
Answer-cases (done a) = inl (a, refl)
Answer-cases (refused e) = inr (e, refl)

module _ {W : Type 0} where
  -- A step that leaves the database as it was, whatever it answers.
  pub record IsQuiet {A : Type 0} (flow : Flow W A) : Type 0 where
    pub same_db : (w : W) (db : Db) → (flow w db).2 ≡ db

  pub call-IsQuiet :
      {E : Type 0} (describe : E → ServiceError) (action : Call E W)
      → IsQuiet (call describe action)
  unfolding call
  call-IsQuiet describe action = record { same_db = λ w db. ground arith }

  pub attempt-IsQuiet : {E : Type 0} (action : Call E W) → IsQuiet (attempt action)
  unfolding attempt
  attempt-IsQuiet action = record { same_db = λ w db. refl }

  pub ask-IsQuiet : {A : Type 0} (action : W → Answer RuntimeError A × W) → IsQuiet (ask action)
  unfolding ask
  ask-IsQuiet action = record { same_db = λ w db. ground arith }

  pub return-IsQuiet : {A : Type 0} (a : A) → IsQuiet (return {W = W} a)
  unfolding return
  return-IsQuiet a = record { same_db = λ w db. refl }

  -- A chain whose first step is done goes on, and one whose first step is refused ends there.
  pub bind-done :
      {A B : Type 0} (flow : Flow W A) (rest : A → Flow W B) (w : W) (db : Db) {a : A}
      → (flow w db).0 ≡ done a
      → (flow >>= rest) w db ≡ rest a (flow w db).1 (flow w db).2
  unfolding ◌>>=◌
  bind-done flow rest w db h = rw (h, ◌>>=◌) refl

  pub bind-refused :
      {A B : Type 0} (flow : Flow W A) (rest : A → Flow W B) (w : W) (db : Db) {e : ServiceError}
      → (flow w db).0 ≡ refused e
      → (flow >>= rest) w db ≡ (refused e, (flow w db).1, (flow w db).2)
  unfolding ◌>>=◌
  bind-refused flow rest w db h = rw (h, ◌>>=◌) refl

  pub bind-IsQuiet :
      {A B : Type 0} {flow : Flow W A} {rest : A → Flow W B}
      → IsQuiet flow
      → ((a : A) → IsQuiet (rest a))
      → IsQuiet (flow >>= rest)
  bind-IsQuiet {flow} {rest} first next = record {
    same_db = λ w db. elim (Answer-cases (flow w db).0) [
      | inl (a, e) ↦ rw (bind-done flow rest w db e) ((next a).same_db _ _ ∙ first.same_db w db)
      | inr (e, h) ↦ rw (bind-refused flow rest w db h) (first.same_db w db)
    ];
  }

  pub if-IsQuiet :
      {A : Type 0} (b : Bool) {this that : Flow W A}
      → IsQuiet this
      → IsQuiet that
      → IsQuiet (if b then this else that)
  if-IsQuiet true this that = this
  if-IsQuiet false this that = that

  transact_ok :
      (change : Db → Result Db) (w : W) (db : Db) {db' : Db}
      → change db ≡ ok db'
      → transact change w db ≡ (done tt, w, db')
  unfolding transact
  transact_ok change w db h = rw (h, transact) refl

  -- A chain that begins with a transaction which succeeds.
  pub transact-then :
      {B : Type 0} (change : Db → Result Db) (rest : Flow W B) (w : W) (db : Db) {db' : Db}
      → change db ≡ ok db'
      → (transact change >> rest) w db ≡ rest w db'
  transact-then change rest w db h =
      bind-done (transact change) (λ _. rest) w db (ap (λ x. x.0) (transact_ok change w db h))
      ∙ ap (λ x. rest x.1 x.2) (transact_ok change w db h)

  ask_done :
      {A : Type 0} (action : W → Answer RuntimeError A × W) (w : W) (db : Db) {a : A}
      → (action w).0 ≡ done a
      → ask action w db ≡ (done a, (action w).1, db)
  unfolding ask
  ask_done action w db h = rw (h, ask) refl

  ask_refused :
      {A : Type 0} (action : W → Answer RuntimeError A × W) (w : W) (db : Db) {e : RuntimeError}
      → (action w).0 ≡ refused e
      → ask action w db ≡ (refused (runtime_failed e), (action w).1, db)
  unfolding ask
  ask_refused action w db h = rw (h, ask) refl

  -- A chain that begins with a question to the runtime.
  pub ask-then :
      {A B : Type 0} (action : W → Answer RuntimeError A × W) (rest : A → Flow W B) (w : W)
      (db : Db) {a : A}
      → (action w).0 ≡ done a
      → (ask action >>= rest) w db ≡ rest a (action w).1 db
  ask-then action rest w db {a} h =
      bind-done (ask action) rest w db (ap (λ x. x.0) (ask_done action w db h))
      ∙ ap (λ x. rest a x.1 x.2) (ask_done action w db h)

  pub ask-stop :
      {A B : Type 0} (action : W → Answer RuntimeError A × W) (rest : A → Flow W B) (w : W)
      (db : Db) {e : RuntimeError}
      → (action w).0 ≡ refused e
      → (ask action >>= rest) w db ≡ (refused (runtime_failed e), (action w).1, db)
  ask-stop action rest w db {e} h =
      bind-refused (ask action) rest w db (ap (λ x. x.0) (ask_refused action w db h))
      ∙ ap (λ x. (refused (runtime_failed e), x.1, x.2)) (ask_refused action w db h)

  transact_err :
      (change : Db → Result Db) (w : W) (db : Db) {failure : Failure}
      → change db ≡ err failure
      → transact change w db ≡ (refused (store_failed failure), w, db)
  unfolding transact
  transact_err change w db h = rw (h, transact) refl

  -- A chain that begins with a transaction and leaves the database after it.
  pub transact-cases :
      {B : Type 0} (change : Db → Result Db) (rest : Flow W B) (w : W) (db : Db)
      → IsQuiet rest
      → ((e : ServiceError) × (((transact change >> rest) w db).0 ≡ refused e)
          × (((transact change >> rest) w db).2 ≡ db))
        ⊎ ((db' : Db) × (change db ≡ ok db') × (((transact change >> rest) w db).2 ≡ db'))
  transact-cases change rest w db quiet = elim (Result-cases (change db)) [
    | inl (e, h) ↦
        let stopped =
          bind-refused (transact change) (λ _. rest) w db
            (ap (λ x. x.0) (transact_err change w db h)) in
        inl (
          store_failed e,
          ap (λ x. x.0) stopped,
          ap (λ x. x.2) stopped ∙ ap (λ x. x.2) (transact_err change w db h),
        )
    | inr (db', h) ↦
        inr (db', h, ap (λ x. x.2) (transact-then change rest w db h) ∙ quiet.same_db w db')
  ]

  pub if_present-IsQuiet :
      {A : Type 0} {f : A → Flow W (Unit {0})} (o : Option A)
      → ((a : A) → IsQuiet (f a))
      → IsQuiet (if_present o f)
  unfolding if_present
  if_present-IsQuiet none each = return-IsQuiet tt
  if_present-IsQuiet (some a) each = each a

  -- A step that is always done and leaves the database as it was.
  pub record IsIdle (flow : Flow W (Unit {0})) : Type 0 where
    pub is_done : (w : W) (db : Db) → (flow w db).0 ≡ done tt
    pub is_quiet : IsQuiet flow

  pub return-IsIdle : IsIdle (return tt)
  return-IsIdle = record { is_done = λ w db. unfold return in refl; is_quiet = return-IsQuiet tt }

  pub attempt-IsIdle : {E : Type 0} (action : Call E W) → IsIdle (attempt action)
  attempt-IsIdle action = record {
    is_done = λ w db. unfold attempt in refl;
    is_quiet = attempt-IsQuiet action;
  }

  pub then-IsIdle :
      {flow rest : Flow W (Unit {0})} → IsIdle flow → IsIdle rest → IsIdle (flow >> rest)
  then-IsIdle {flow} {rest} first next = record {
    is_done = λ w db.
        ap (λ x. x.0) (bind-done flow (λ _. rest) w db (first.is_done w db)) ∙ next.is_done _ _;
    is_quiet = bind-IsQuiet first.is_quiet (λ _. next.is_quiet);
  }

  pub if_present-IsIdle :
      {A : Type 0} {f : A → Flow W (Unit {0})} (o : Option A)
      → ((a : A) → IsIdle (f a))
      → IsIdle (if_present o f)
  unfolding if_present
  if_present-IsIdle none each = return-IsIdle
  if_present-IsIdle (some a) each = each a

  -- A chain whose first step leaves the database ends there, or goes on with the same database.
  pub quiet-cases :
      {A B : Type 0} (flow : Flow W A) (rest : A → Flow W B) (w : W) (db : Db)
      → IsQuiet flow
      → ((e : ServiceError) × (((flow >>= rest) w db).0 ≡ refused e)
          × (((flow >>= rest) w db).2 ≡ db))
        ⊎ ((a : A) × (w' : W) × ((flow w db).0 ≡ done a) × ((flow >>= rest) w db ≡ rest a w' db))
  quiet-cases flow rest w db quiet = elim (Answer-cases (flow w db).0) [
    | inl (a, h) ↦ inr (
      a,
      (flow w db).1,
      h,
      bind-done flow rest w db h ∙ ap (λ d. rest a (flow w db).1 d) (quiet.same_db w db),
    )
    | inr (e, h) ↦ inl (
      e,
      ap (λ x. x.0) (bind-refused flow rest w db h),
      ap (λ x. x.2) (bind-refused flow rest w db h) ∙ quiet.same_db w db,
    )
  ]
