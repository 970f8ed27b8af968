-- ===== src/Manager/Start.antt =====
-- What `NewManager` of cluster/membership.go returns.
use qa_d.Base.{
  ℕ, ◌≡◌, ◌≢◌, refl, ◌∙◌, ap, sym, true, [], ◌∷◌, Option, Text, contains_text, text_eq_iff,
  text_eq_refl, if◌then◌else◌, ok, arith,
}
use qa_d.Proto.{reply}
use qa_d.Config.{Config}
use qa_d.Ring.{ConsistentHashRing, new_ring, add_node, node_of_direct}
use qa_d.Ring.Join.{add_node-join, join as join_ring}
use qa_d.Ring.Owner.{node_of_direct-Owns, All-In}
use qa_d.Ring.Valid.{IsValid, count_of, join-IsValid}
use qa_d.Ring.Calls.{new_ring-IsValid}
use qa_d.GrpcPool.{Grpc, new_pool, get_all_node_names}
use qa_d.GrpcPool.Connections.{IsValid as PoolIsValid, new_pool-IsValid}
use qa_d.Manager.{
  Memberlist, Manager, created, new_manager, settings_of, new_event_delegate, health_check,
}

-- The ring that a node starts with, where `NewRing` gives each node some virtual nodes.
abbrev pub first_ring : (Text → ℕ) → Text → ConsistentHashRing
first_ring sum64 name = join_ring sum64 (new_ring 150) name

module _ (sum64 : Text → ℕ) (name : Text) where
  pub first_ring-add_node : add_node sum64 (new_ring 150) name ≡ ok (first_ring sum64 name)
  unfolding new_ring contains_text
  first_ring-add_node =
      add_node-join sum64 (new_ring 150) name (new_ring-IsValid sum64 150).sorted refl

  pub first_ring-IsValid : IsValid sum64 (first_ring sum64 name)
  unfolding new_ring contains_text
  first_ring-IsValid = join-IsValid sum64 (new_ring 150) name (new_ring-IsValid sum64 150) refl

  pub first_ring-nodes : (first_ring sum64 name).nodes ≡ name ∷ []
  unfolding join_ring new_ring
  first_ring-nodes = refl

  pub self_known : contains_text (name ∷ []) name ≡ true
  unfolding contains_text
  self_known = ground (arith, text_eq_refl name)

  first_ring-count : count_of name (first_ring sum64 name).ring ≡ 150
  unfolding join_ring new_ring
  first_ring-count = first_ring-IsValid.counted name ∙ ap (λ b. if b then 150 else 0) self_known

  first_ring-ne : (first_ring sum64 name).ring ≢ []
  unfolding count_of
  first_ring-ne e =
      let none_there : count_of name [] ≡ 150 = ap (count_of name) (sym e) ∙ first_ring-count in
      omega arith

  -- Every hash is its own.
  first_ring-owned : (h : ℕ) → node_of_direct (first_ring sum64 name) h ≡ ok name
  unfolding contains_text join_ring new_ring
  first_ring-owned h =
      let (v, found, owns) =
        node_of_direct-Owns (first_ring sum64 name) h first_ring-IsValid.sorted first_ring-ne in
      let own : contains_text (name ∷ []) v.name ≡ true =
        All-In (λ u. contains_text (name ∷ []) u.name ≡ true) _ first_ring-IsValid.known owns.0 in
      found ∙ ap ok (ground (arith, text_eq_iff name v.name))

module _ {Level : Type 0} (g : Grpc) (m : Memberlist g.World) (sum64 : Text → ℕ) where
  -- The manager of a node whose `memberlist` was created.
  abbrev pub first_manager : Config Level → m.Handle → Manager Level m.Handle g.Conn
  first_manager cfg list = record {
    list = list;
    delegate = new_event_delegate cfg.node_name cfg.grpc_port;
    grpc_pool = new_pool g;
    hash_ring = first_ring sum64 cfg.node_name;
    config = cfg;
  }

  pub new_manager-first :
      (cfg : Config Level) (outbound : Option Text) (w w₁ : g.World) (list : m.Handle)
      → m.create w (settings_of g m cfg outbound) ≡ (reply list, w₁)
      → new_manager g m sum64 cfg outbound w ≡ ok (reply (first_manager cfg list), w₁)
  unfolding new_manager created
  new_manager-first cfg outbound w w₁ list e =
      rw (new_manager, e, created, first_ring-add_node sum64 cfg.node_name, e) refl

  -- Where `memberlist` is created, `NewManager` returns a manager: its ring is valid, holds only this
  -- node, and gives it every hash; its pool is valid.
  pub new_manager-owns :
      (cfg : Config Level) (outbound : Option Text) (w w₁ : g.World) (list : m.Handle) (h : ℕ)
      → m.create w (settings_of g m cfg outbound) ≡ (reply list, w₁)
      → (mgr : Manager Level m.Handle g.Conn) × (new_manager g m sum64 cfg outbound w
          ≡ ok (reply mgr, w₁))
        × IsValid sum64 mgr.hash_ring
        × (mgr.hash_ring.nodes ≡ cfg.node_name ∷ [])
        × (node_of_direct mgr.hash_ring h ≡ ok cfg.node_name)
        × PoolIsValid g.Conn mgr.grpc_pool
  new_manager-owns cfg outbound w w₁ list h e = (
    first_manager cfg list,
    new_manager-first cfg outbound w w₁ list e,
    first_ring-IsValid sum64 cfg.node_name,
    first_ring-nodes sum64 cfg.node_name,
    first_ring-owned sum64 cfg.node_name h,
    new_pool-IsValid g,
  )

  -- The health of a new manager names no node as a node of the hash ring, though the ring holds this
  -- one: the list is that of the pool.
  pub health_check_first :
      (cfg : Config Level) (outbound : Option Text) (w w₁ : g.World) (list : m.Handle)
      → m.create w (settings_of g m cfg outbound) ≡ (reply list, w₁)
      → (mgr : Manager Level m.Handle g.Conn) × (new_manager g m sum64 cfg outbound w
          ≡ ok (reply mgr, w₁))
        × ((health_check g m mgr w₁).hash_ring_nodes ≡ [])
        × (mgr.hash_ring.nodes ≡ cfg.node_name ∷ [])
  unfolding health_check get_all_node_names new_pool
  health_check_first cfg outbound w w₁ list e = (
    first_manager cfg list,
    new_manager-first cfg outbound w w₁ list e,
    refl,
    first_ring-nodes sum64 cfg.node_name,
  )
