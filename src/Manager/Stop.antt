-- ===== src/Manager/Stop.antt =====
-- What `Leave` of cluster/membership.go leaves behind.
use qa_d.Base.{◌≡◌, Option, none, some, []}
use qa_d.GrpcPool.{Grpc, close_all}
use qa_d.Manager.{Memberlist, Manager, ManagerError, failed_to_leave, failed_to_shutdown}

module _ {Level : Type 0} (g : Grpc) (m : Memberlist g.World) where
  -- After `Leave`: an error of `memberlist` leaves the manager and its connections as they were, and
  -- else every entry of the pool was closed, and the pool is empty.
  abbrev pub HasLeft :
      Manager Level m.Handle g.Conn
      → Option m.Error
      → Option m.Error
      → g.World
      → Option (ManagerError m.Error) × Manager Level m.Handle g.Conn × g.World
      → Type 0
  HasLeft mgr (some e) down w (error, mgr', w') = (error ≡ some (failed_to_leave e)) × (mgr' ≡ mgr)
  HasLeft mgr none (some e) w (error, mgr', w') =
      (error ≡ some (failed_to_shutdown e)) × (mgr' ≡ mgr)
  HasLeft mgr none none w (error, mgr', w') =
      (error ≡ none)
      × (mgr'.grpc_pool.connections ≡ [])
      × (w' ≡ close_all g mgr.grpc_pool w mgr.grpc_pool.connections)
