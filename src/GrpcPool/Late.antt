-- ===== src/GrpcPool/Late.antt =====
-- A `GetConnection` that another call overtakes (cluster/grpc_pool.go): it has its entry, lets go of the
-- lock, and goes on when the map has changed.
