-- ===== src/Proto.antt =====
-- proto/node.proto: the messages of the service `Communication` and the status of an answer. A
-- message is a pointer in the sources, `none` being `nil`.
use qa_d.Base.{◌⊎◌, inl, inr, subst, ◌≡◌, refl, ℕ, List, Text, Option}
use qa_d.Storage.{Slice}

pub record Key : Type 0 where
  pub key : Text

pub record KeyValuePair : Type 0 where
  pub key : Text
  pub hash : ℕ
  pub value : Slice

pub record Value : Type 0 where
  pub payload : List Slice

pub data Void : Type 0 where
  void : Void

-- `codes.Code`, with the codes that the sources name; `other` is any of the rest.
pub data Code : Type 0 where
  canceled : Code
  invalid_argument : Code
  not_found : Code
  unavailable : Code
  deadline_exceeded : Code
  other : ℕ → Code

-- A gRPC status.
pub record Status : Type 0 where
  pub code : Code
  pub message : Text

-- A value and a `nil` error, or an error.
pub data Reply {ℓ} (E A : Type ℓ) : Type ℓ where
  reply : A → Reply E A
  fail : E → Reply E A

pub Reply-cases {ℓ} :
    {E A : Type ℓ} (r : Reply E A) → ((e : E) × (r ≡ fail e)) ⊎ ((a : A) × (r ≡ reply a))
Reply-cases (fail e) = inl (e, refl)
Reply-cases (reply a) = inr (a, refl)

-- The early return of an error.
infixl 5 ◌>>=◌
abbrev pub ◌>>=◌ {ℓ} : {E A B : Type ℓ} → Reply E A → (A → Reply E B) → Reply E B
fail e >>= next = fail e
reply a >>= next = next a

pub reply_injective {ℓ} : {E A : Type ℓ} {a b : A} → ◌≡◌ {A = Reply E A} (reply a) (reply b) → a ≡ b
reply_injective e = cc

-- A statement of the value, if there is one.
abbrev pub Ensures {ℓ κ} : {E A : Type ℓ} → (A → Type κ) → Reply E A → Type κ
Ensures P (fail e) = Unit
Ensures P (reply a) = P a

-- It is proved along a chain, each step with what the steps before it returned.
pub Ensures->>= {ℓ κ} :
    {E A B : Type ℓ} (P : B → Type κ) (first : Reply E A) (next : A → Reply E B)
    → ((a : A) → first ≡ reply a → Ensures P (next a))
    → Ensures P (first >>= next)
Ensures->>= P (fail e) next h = tt
Ensures->>= P (reply a) next h = h a refl

pub Ensures-reply {ℓ κ} :
    {E A : Type ℓ} {a : A} (P : A → Type κ) (r : Reply E A) → Ensures P r → r ≡ reply a → P a
Ensures-reply P (fail e) h q = cc
Ensures-reply P (reply b) h q = subst P (reply_injective q) h

-- What the sources use of other nodes: `GRPCPool.GetClient`, the two calls of a client, and errors.
-- `World` is the state of the pool, of the network and of the other nodes. `from_error` is
-- `status.FromError`, `wrap` is `fmt.Errorf` with a prefix and `%w`, and `error_text` is
-- `err.Error()`.
pub record Peers : Type 1 where
  pub World : Type 0
  pub Client : Type 0
  pub Error : Type 0
  pub get_client : World → Text → Reply Error Client × World
  pub read : World → Client → Key → Reply Error Value × World
  pub write : World → Client → KeyValuePair → Reply Error Void × World
  pub from_error : Error → Option Status
  pub wrap : Text → Error → Error
  pub error_text : Error → Text
