-- ===== src/GrpcPool/Clients.antt =====
-- The pool as the HTTP server sees it: `GetClient` of cluster/grpc_pool.go, and the calls of a client.
use qa_d.Base.{Option, Text}
use qa_d.Proto.{Peers, Status, Reply, reply, fail}
use qa_d.GrpcPool.{Grpc, Pool, PoolError, get_connection}

-- The errors of the pool and of the calls as one `error`, with `status.FromError`, `fmt.Errorf` with
-- `%w`, and `Error()`.
pub record Errors (g : Grpc) : Type 1 where
  pub Error : Type 0
  pub of_pool : PoolError g.Error → Error
  pub of_call : g.Error → Error
  pub from_error : Error → Option Status
  pub wrap : Text → Error → Error
  pub error_text : Error → Text

-- An error in its wider type.
abbrev pub widen {ℓ} : {E F A : Type ℓ} → (E → F) → Reply E A → Reply F A
widen f (fail e) = fail (f e)
widen f (reply a) = reply a

module _ (g : Grpc) (errors : Errors g) where
  -- A client is its connection.
  unfoldable pub get_client :
      Pool g.Conn → g.World → Text → Reply errors.Error g.Conn × Pool g.Conn × g.World
  get_client p w node_addr =
      let (conn, p₁, w₁) = get_connection g p w node_addr in (widen errors.of_pool conn, p₁, w₁)

  abbrev pub pool_peers : Peers
  pool_peers = record {
    World = Pool g.Conn × g.World;
    Client = g.Conn;
    Error = errors.Error;
    get_client =
        λ w node_addr. let (client, p₁, w₁) = get_client w.0 w.1 node_addr in (client, (p₁, w₁));
    read = λ w conn key.
        let (answer, w₁) = g.read w.1 conn key in (widen errors.of_call answer, (w.0, w₁));
    write = λ w conn pair.
        let (answer, w₁) = g.write w.1 conn pair in (widen errors.of_call answer, (w.0, w₁));
    from_error = errors.from_error;
    wrap = errors.wrap;
    error_text = errors.error_text;
  }
