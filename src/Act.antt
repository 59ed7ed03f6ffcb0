-- ===== src/Act.antt =====
-- Actions of the services: a state goes in, and a state and a result come out. A `?` on an error ends
-- the action in the state that it has reached.
use openclaw_rs.Base.{String, ◌≡◌, refl, none, some}
use openclaw_rs.Errors.{Result, ok, err, AppError, infra, database}
use openclaw_rs.Sql.{Fault}

abbrev pub Act : Type 0 → Type 0 → Type 0
Act S A = S → S × Result AppError A

module _ {S A : Type 0} where
  unfoldable pub return : A → Act S A
  return a s = (s, ok a)

  unfoldable pub fail : AppError → Act S A
  fail x s = (s, err x)

  -- `match action { Ok(()) => …, Err(e) => log and go on }`
  unfoldable pub attempt : Act S A → Act S (Result AppError A)
  attempt m s = ((m s).0, ok (m s).1)

  -- A query of the pool: the database answers, or the error with its message made up by `text`.
  unfoldable pub query : (String → String) → Fault → A → Act S A
  query text none a s = (s, ok a)
  query text (some message) a s = (s, err (infra (database (text message))))

module _ {S A B : Type 0} where
  unfoldable pub continue : (A → Act S B) → S × Result AppError A → S × Result AppError B
  continue f (s, ok a) = f a s
  continue f (s, err x) = (s, err x)

  infixl 5 ◌>>=◌
  unfoldable pub ◌>>=◌ : Act S A → (A → Act S B) → Act S B
  unfolding continue
  (m >>= f) s = continue f (m s)

-- A relation that every run of an action keeps between the state before and the state after.
pub record Moves {S A : Type 0} (R : S → S → Type 0) (m : Act S A) : Type 0 where
  pub moves : (s : S) → R s (m s).0

module _ {S : Type 0} (R : S → S → Type 0) (stay : (s : S) → R s s) where
  pub Moves-return : {A : Type 0} (a : A) → Moves R (return a)
  unfolding return
  Moves-return a = record { moves = stay }

  pub Moves-fail : {A : Type 0} (x : AppError) → Moves R (fail {A = A} x)
  unfolding fail
  Moves-fail x = record { moves = stay }

  pub Moves-query :
      {A : Type 0} (text : String → String) (fault : Fault) (a : A) → Moves R (query text fault a)
  unfolding query
  Moves-query text none a = record { moves = stay }
  Moves-query text (some m) a = record { moves = stay }

  pub Moves-attempt : {A : Type 0} (m : Act S A) → Moves R m → Moves R (attempt m)
  unfolding attempt
  Moves-attempt m h = record { moves = h.moves }

module _ {S : Type 0} (R : S → S → Type 0) (join : (a b c : S) → R a b → R b c → R a c) where
  continue-moves :
      {A B : Type 0} (f : A → Act S B) (s : S) (p : S × Result AppError A)
      → R s p.0
      → ((a : A) → Moves R (f a))
      → R s (continue f p).0
  unfolding continue
  continue-moves f s (t, ok a) h next = join s t (f a t).0 h ((next a).moves t)
  continue-moves f s (t, err x) h next = h

  pub Moves-bind :
      {A B : Type 0} (m : Act S A) (f : A → Act S B)
      → Moves R m
      → ((a : A) → Moves R (f a))
      → Moves R (m >>= f)
  unfolding ◌>>=◌
  Moves-bind m f h next = record { moves = λ s. continue-moves f s (m s) (h.moves s) next }

-- A query is answered with its value only.
pub Moves-query-bind :
    {S A B : Type 0} (R : S → S → Type 0) (stay : (s : S) → R s s) (text : String → String)
    (fault : Fault) (a : A) (f : A → Act S B)
    → Moves R (f a)
    → Moves R (query text fault a >>= f)
unfolding query ◌>>=◌ continue
Moves-query-bind R stay text none a f h = record { moves = h.moves }
Moves-query-bind R stay text (some m) a f h = record { moves = stay }

-- A chain that succeeded, taken apart.
pub record Chain {S A B : Type 0} (m : Act S A) (f : A → Act S B) (s : S) (b : B) : Type 0 where
  pub middle : S
  pub value : A
  pub first : m s ≡ (middle, ok value)
  pub second : (f value middle).1 ≡ ok b
  pub state : ((m >>= f) s).0 ≡ (f value middle).0

chain_of :
    {S A B : Type 0} (f : A → Act S B) (p : S × Result AppError A) (b : B)
    → (continue f p).1 ≡ ok b
    → (s : S) × (a : A) × (p ≡ (s, ok a)) × ((f a s).1 ≡ ok b) × ((continue f p).0 ≡ (f a s).0)
unfolding continue
chain_of f (s, ok a) b h = (s, a, refl, h, refl)
chain_of f (s, err x) b h = absurd (cc)

pub >>=-eq-ok :
    {S A B : Type 0} (m : Act S A) (f : A → Act S B) (s : S) (b : B)
    → ((m >>= f) s).1 ≡ ok b
    → Chain m f s b
unfolding ◌>>=◌
>>=-eq-ok m f s b h =
    let (t, a, first, second, state) = chain_of f (m s) b h in
    record { middle = t; value = a; first = first; second = second; state = state }

continue-return :
    {S B : Type 0} (p : S × Result AppError (Unit {0})) (b c : B)
    → (continue (λ u. return b) p).1 ≡ ok c
    → (p.1 ≡ ok tt) × (c ≡ b) × ((continue (λ u. return b) p).0 ≡ p.0)
unfolding continue return
continue-return (s, ok u) b c h = (refl, cc, refl)
continue-return (s, err x) b c h = absurd (cc)

-- A chain that ends in a fixed value.
pub then_return-eq-ok :
    {S B : Type 0} (m : Act S (Unit {0})) (b c : B) (s : S)
    → ((m >>= λ u. return b) s).1 ≡ ok c
    → ((m s).1 ≡ ok tt) × (c ≡ b) × (((m >>= λ u. return b) s).0 ≡ (m s).0)
unfolding ◌>>=◌
then_return-eq-ok m b c s h = continue-return (m s) b c h

-- A chain after a query that succeeded is the chain at the query's value.
pub query_bind-ok :
    {S A B : Type 0} (text : String → String) (fault : Fault) (a : A) (f : A → Act S B) (s : S)
    (b : B)
    → ((query text fault a >>= f) s).1 ≡ ok b
    → (query text fault a >>= f) s ≡ f a s
unfolding query ◌>>=◌ continue
query_bind-ok text none a f s b h = refl
query_bind-ok text (some m) a f s b h = absurd (cc)
