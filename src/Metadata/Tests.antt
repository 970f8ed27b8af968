-- ===== src/Metadata/Tests.antt =====
-- A small encoding in place of JSON, for tests of cluster/node_meta.go.
use qa_d.Base.{
  ℕ, ◌≡◌, List, [], ◌∷◌, ◌++◌, Text, codes, length, take, drop, take-append, drop-append, ap, sym,
  ap₂, ◌∙◌,
}
use qa_d.Proto.{Reply, reply, fail}
use qa_d.Metadata.{NodeMeta}
use qa_d.Metadata.Delegate.{RoundTrips}

-- The length of the name, the name and the address.
abbrev pub encode : NodeMeta → Reply Text (List ℕ)
encode m = reply (length m.node_name ∷ (m.node_name ++ m.grpc_addr))

abbrev pub decode : List ℕ → Reply Text NodeMeta
decode [] = fail (codes "no data")
decode (n ∷ json) = reply (record { node_name = take n json; grpc_addr = drop n json })

pub encode-RoundTrips : RoundTrips encode decode
encode-RoundTrips m json e =
    let written : (length m.node_name ∷ (m.node_name ++ m.grpc_addr)) ≡ json = cc in
    ap decode (sym written)
    ∙ ap₂ (λ n a. reply (record { node_name = n; grpc_addr = a }))
        (take-append m.node_name m.grpc_addr) (drop-append m.node_name m.grpc_addr)
