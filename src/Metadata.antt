-- ===== src/Metadata.antt =====
-- cluster/node_meta.go and cluster/delegate.go: the metadata that a node tells the others.
-- `json.Marshal` and `json.Unmarshal` are parameters.
pub mod Delegate
pub mod Tests
use qa_d.Base.{Bool, ℕ, List, [], Text, length, take, ltb, if◌then◌else◌}
use qa_d.Proto.{Reply, reply, fail}

pub record NodeMeta : Type 0 where
  pub node_name : Text
  pub grpc_addr : Text

-- The errors of `encoding/json`, wrapped, and the one of `Marshal` itself.
pub data MetaError (Error : Type 0) : Type 0 where
  failed_to_marshal : Error → MetaError Error
  failed_to_unmarshal : Error → MetaError Error
  metadata_too_large : ℕ → MetaError Error

pub record MetadataDelegate : Type 0 where
  pub node_meta : NodeMeta

module _ {Error : Type 0} where
  -- `Marshal`, for what `json.Marshal` returns.
  unfoldable pub check_size : Reply Error (List ℕ) → Reply (MetaError Error) (List ℕ)
  check_size (fail e) = fail (failed_to_marshal e)
  check_size (reply json) =
      if ltb 512 (length json) then fail (metadata_too_large (length json)) else reply json

  -- `MetadataDelegate.NodeMeta`, for what `Marshal` returns.
  unfoldable pub cut : ℕ → Reply (MetaError Error) (List ℕ) → List ℕ
  cut limit (fail e) = []
  cut limit (reply json) = if ltb limit (length json) then take limit json else json

  -- `Unmarshal`, for what `json.Unmarshal` returns.
  unfoldable pub wrap_error : Reply Error NodeMeta → Reply (MetaError Error) NodeMeta
  wrap_error (fail e) = fail (failed_to_unmarshal e)
  wrap_error (reply m) = reply m

  module _ (encode : NodeMeta → Reply Error (List ℕ)) (decode : List ℕ → Reply Error NodeMeta) where
    unfoldable pub marshal : NodeMeta → Reply (MetaError Error) (List ℕ)
    unfolding check_size
    marshal m = check_size (encode m)

    unfoldable pub unmarshal : List ℕ → Reply (MetaError Error) NodeMeta
    unfolding wrap_error
    unmarshal json = wrap_error (decode json)

    unfoldable pub node_meta_data : MetadataDelegate → ℕ → List ℕ
    unfolding cut marshal
    node_meta_data d limit = cut limit (marshal d.node_meta)

-- The other methods of the delegate, which the sources leave empty.
abbrev pub notify_msg : MetadataDelegate → List ℕ → MetadataDelegate
notify_msg d msg = d

abbrev pub get_broadcasts : MetadataDelegate → ℕ → ℕ → List (List ℕ)
get_broadcasts d overhead limit = []

abbrev pub local_state : MetadataDelegate → Bool → List ℕ
local_state d join = []

abbrev pub merge_remote_state : MetadataDelegate → List ℕ → Bool → MetadataDelegate
merge_remote_state d buf join = d
