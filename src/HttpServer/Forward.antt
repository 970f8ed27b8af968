-- ===== src/HttpServer/Forward.antt =====
-- `GET` for a key of another node: the reassembled value, the mapping of the errors, and the read
-- that follows a write.
use qa_d.Base.{
  ℕ, ◌≡◌, ◌⊎◌, refl, sym, ap, ◌∙◌, true, Bool-cases, List, [], ◌∷◌, ◌++◌, append-nil, append_assoc,
  Option, none, some, Text, codes, arith, inl, inr,
}
use qa_d.Storage.{Storage, Slice, nil, slice}
use qa_d.Proto.{
  Peers, Status, Code, canceled, invalid_argument, other, not_found, unavailable, deadline_exceeded,
  reply, fail,
}
use qa_d.HttpServer.Response.{Writer, set_header, write_header, write_body, http_error, new_writer}
use qa_d.HttpServer.{HashRing, append_chunk, full_value}
use qa_d.HttpServer.Handlers.{
  Run, forward_get, get_remote, handle_forward_error, is_not_found, error_response, send_value,
}
use qa_d.HttpServer.Requests.{Answers, send_value-Answers}

abbrev pub content : Slice → List ℕ
content nil = []
content (slice bs) = bs

-- The bytes of all chunks.
unfoldable pub concat : List Slice → List ℕ
concat [] = []
concat (chunk ∷ chunks) = content chunk ++ concat chunks

-- A row of bytes as Go's `append` builds it from `nil`.
abbrev pub to_slice : List ℕ → Slice
to_slice [] = nil
to_slice (b ∷ bs) = slice (b ∷ bs)

append_chunk-to_slice :
    (acc : List ℕ) (chunk : Slice)
    → append_chunk (to_slice acc) chunk ≡ to_slice (acc ++ content chunk)
unfolding append_chunk
append_chunk-to_slice [] nil = refl
append_chunk-to_slice [] (slice []) = refl
append_chunk-to_slice [] (slice (b ∷ bs)) = refl
append_chunk-to_slice (a ∷ acc) nil = rw append-nil
append_chunk-to_slice (a ∷ acc) (slice []) = rw append-nil
append_chunk-to_slice (a ∷ acc) (slice (b ∷ bs)) = refl

-- `forwardGet` puts the value together from its chunks; the result is `nil` exactly where they hold
-- no byte at all.
pub full_value-concat :
    (chunks : List Slice) (acc : List ℕ)
    → full_value (to_slice acc) chunks ≡ to_slice (acc ++ concat chunks)
unfolding full_value concat
full_value-concat [] acc = ap to_slice (sym (append-nil acc))
full_value-concat (chunk ∷ chunks) acc =
    ap (λ v. full_value v chunks) (append_chunk-to_slice acc chunk)
    ∙ full_value-concat chunks (acc ++ content chunk)
    ∙ ap to_slice (append_assoc acc (content chunk) (concat chunks))

-- The status of the answer to a failed call with this code.
abbrev pub status_for : Option Code → ℕ
status_for none = 500
status_for (some not_found) = 404
status_for (some unavailable) = 503
status_for (some deadline_exceeded) = 504
status_for (some canceled) = 500
status_for (some invalid_argument) = 500
status_for (some (other n)) = 500

abbrev pub code_of : Option Status → Option Code
code_of none = none
code_of (some st) = some st.code

error-status :
    (st : Option Status) (text op : Text)
    → (error_response st text op new_writer).status ≡ some (status_for (code_of st))
unfolding error_response http_error write_header write_body set_header
error-status none text op = refl
error-status (some st) text op =
    elim st.code
      as (λ c.
        (elim c as (λ x. Writer) [
          | not_found ↦ http_error (codes "Key not found") 404 new_writer
          | unavailable ↦ http_error (codes "Service temporarily unavailable") 503 new_writer
          | deadline_exceeded ↦ http_error (codes "Request timeout") 504 new_writer
          | _ ↦ http_error (op ++ codes " failed: " ++ st.message) 500 new_writer
        ]).status
        ≡ some (status_for (some c))) [
          | not_found ↦ refl
          | unavailable ↦ refl
          | deadline_exceeded ↦ refl
          | _ ↦ refl
        ]

not_found-status : (st : Option Status) → is_not_found st ≡ true → status_for (code_of st) ≡ 404
not_found-status none h = cc
not_found-status (some st) h = ground arith

module _ (store : Storage) (peers : Peers) (hash_ring : Option HashRing) (self_addr : Text) where
  open peers use {World, Client, Error}

  -- The documented behaviour of `status.FromError`: a wrapped error has the code of the error in
  -- it.
  abbrev pub WrapKeepsCode : Type 0
  WrapKeepsCode =
      (t : Text) (e : Error)
      → code_of (peers.from_error (peers.wrap t e)) ≡ code_of (peers.from_error e)

  -- What `forwardGet` returns for an answer, and what becomes of it.
  pub forward_get-reply :
      (target key : Text) (client : Client) (chunks : List Slice) {w w₁ w₂ : World}
      → peers.get_client w target ≡ (reply client, w₁)
      → peers.read w₁ client (record { key = key }) ≡ (reply (record { payload = chunks }), w₂)
      → forward_get store peers hash_ring self_addr w target key
        ≡ (reply (full_value nil chunks), w₂)
  unfolding forward_get
  forward_get-reply target key client chunks c r = rw (forward_get, c, c, r) refl

  pub forward_get-missing :
      (target key : Text) (client : Client) (e : Error) {w w₁ w₂ : World}
      → peers.get_client w target ≡ (reply client, w₁)
      → peers.read w₁ client (record { key = key }) ≡ (fail e, w₂)
      → is_not_found (peers.from_error e) ≡ true
      → forward_get store peers hash_ring self_addr w target key ≡ (reply nil, w₂)
  unfolding forward_get
  forward_get-missing target key client e c r m = rw (forward_get, c, c, r, m) refl

  pub get_remote-reply :
      (target key : Text) (x : Run store peers hash_ring self_addr) (v : Slice) {w : World}
      → forward_get store peers hash_ring self_addr x.world target key ≡ (reply v, w)
      → get_remote store peers hash_ring self_addr target key x
        ≡ record x { world = w; writer = send_value v x.writer }
  unfolding get_remote
  get_remote-reply target key x v e = rw (get_remote, e) refl

  -- The call of the node for the key fails with this error.
  abbrev pub Fails : World → Text → Text → Error → Type 0
  Fails w target key e =
      ((w₁ : World) × (peers.get_client w target ≡ (fail e, w₁)))
      ⊎ ((client : Client) × (w₁ : World) × (w₂ : World) × (peers.get_client w target
            ≡ (reply client, w₁))
          × (peers.read w₁ client (record { key = key }) ≡ (fail e, w₂)))

  -- A value that comes from another node in chunks is answered with 200 and all its bytes in order;
  -- where there is no byte the answer is 404, so that an empty value, which its own node serves
  -- with 200, is not found through any other node.
  pub get_remote-value :
      (key target : Text) (x : Run store peers hash_ring self_addr) (client : Client)
      (chunks : List Slice) {w₁ w₂ : World}
      → peers.get_client x.world target ≡ (reply client, w₁)
      → peers.read w₁ client (record { key = key }) ≡ (reply (record { payload = chunks }), w₂)
      → x.writer ≡ new_writer
      → Answers
          (to_slice (concat chunks))
          (get_remote store peers hash_ring self_addr target key x).writer
  unfolding get_remote forward_get
  get_remote-value key target x client chunks c r w =
      rw (get_remote, forward_get, c, c, r, full_value-concat chunks [], w)
        (send_value-Answers (to_slice (concat chunks)))

  -- Where a wrapped error keeps its code, a failed call is answered with 404 for `NotFound`, 503
  -- for `Unavailable`, 504 for `DeadlineExceeded` and 500 for any other error, whether there was no
  -- client or the read failed.
  pub get_remote-error :
      WrapKeepsCode
      → (key target : Text) (x : Run store peers hash_ring self_addr) (e : Error)
      → Fails x.world target key e
      → x.writer ≡ new_writer
      → (get_remote store peers hash_ring self_addr target key x).writer.status
        ≡ some (status_for (code_of (peers.from_error e)))
  unfolding get_remote forward_get
  get_remote-error keeps key target x e (inl (w₁, c)) w =
      rw (get_remote, forward_get, c, handle_forward_error, w)
        (error-status _ _ _ ∙ ap (λ k. some (status_for k)) (keeps _ e))
  get_remote-error keeps key target x e (inr (client, w₁, w₂, c, r)) w =
      elim (Bool-cases (is_not_found (peers.from_error e))) [
        | inl missing ↦
            rw (get_remote, forward_get, c, c, r, missing, w)
              ((send_value-Answers nil).0 ∙ ap some (sym (not_found-status _ missing)))
        | inr failed ↦
            rw (get_remote, forward_get, c, c, r, failed, handle_forward_error, w)
              (error-status _ _ _ ∙ ap (λ k. some (status_for k)) (keeps _ e))
      ]
