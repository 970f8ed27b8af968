-- ===== src/GrpcServer.antt =====
-- grpc_server/index.go: the service that the other nodes call, over any `Storage`.
pub mod Behaviour
mod Tests
use qa_d.Base.{
  ℕ, Bool, true, false, List, [], ◌∷◌, Option, none, some, Text, codes, text_eq, ◌==◌,
  if◌then◌else◌,
}
use qa_d.Storage.{Storage, Slice, nil, slice}
use qa_d.Proto.{
  Status, Key, KeyValuePair, Value, Void, void, Code, canceled, invalid_argument, not_found, Reply,
  reply, fail,
}

-- The answers of `status.Error(code, message)`.
abbrev pub request_cancelled : Status
request_cancelled = record { code = canceled; message = codes "request cancelled" }

abbrev pub invalid : Text → Status
invalid message = record { code = invalid_argument; message = message }

abbrev pub missing : Status
missing = record { code = not_found; message = codes "key not found in storage" }

-- The answer to a read that found this value.
abbrev pub answer : Slice → Reply Status Value
answer nil = fail missing
answer (slice bytes) = reply (record { payload = slice bytes ∷ [] })

abbrev pub is_nil : Slice → Bool
is_nil nil = true
is_nil (slice bytes) = false

module _ (store : Storage) where
  open store use {State}

  -- The answer, and the state of the store behind it. `cancelled` is `ctx.Err() != nil`.
  unfoldable pub read : State → Bool → Option Key → Reply Status Value × State
  read s cancelled key = if cancelled then (fail request_cancelled, s) else elim key [
    | none ↦ (fail (invalid (codes "key cannot be empty")), s)
    | some k ↦
        if text_eq k.key []
        then (fail (invalid (codes "key cannot be empty")), s)
        else (answer (store.read s k.key).0, (store.read s k.key).1)
  ]

  unfoldable pub write : State → Bool → Option KeyValuePair → Reply Status Void × State
  write s cancelled kv_pair = if cancelled then (fail request_cancelled, s) else elim kv_pair [
    | none ↦ (fail (invalid (codes "key-value pair cannot be nil")), s)
    | some p ↦
        if text_eq p.key []
        then (fail (invalid (codes "key cannot be empty")), s)
        else if is_nil p.value
        then (fail (invalid (codes "value cannot be nil")), s)
        else if p.hash == 0
        then (fail (invalid (codes "hash cannot be 0")), s)
        else (reply void, store.write s p.key p.hash p.value)
  ]
