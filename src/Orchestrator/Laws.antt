-- ===== src/Orchestrator/Laws.antt =====
-- Waiting setups and the pool of identifiers under a setup and a teardown (src/orchestrator.rs).
use nullnet_grpc.Base.{
  ℕ, ◌≡◌, refl, ◌∙◌, String, Bool, true, false, Option, none, some, string_eq, inl, inr,
  Option-cases, Bool-cases, IpAddr, Ipv4Addr, arith, eq_iff,
}
use nullnet_grpc.Base.HashMap.{HashMap, get, insert, remove, get-insert, get-remove, get-modify}
use nullnet_grpc.Proto.{Net, NetMessage}
use nullnet_grpc.NetIdPool
use nullnet_grpc.Net.{IpNetworkCrate, setup, teardown}
use nullnet_grpc.Net.Sides.{IsLawful, returned, server_address, setup_address}
use nullnet_grpc.Orchestrator.{
  Orchestrator, OutboundStream, Reply, acknowledged, dropped, timed_out, after_send, send,
  send_net_setup, teardown_side, send_net_teardown, push_message,
}

insert-remove :
    (k j : String) (m : HashMap String (Unit {0}))
    → get k m ≡ none
    → get j (remove k (insert k tt m)) ≡ get j m
insert-remove k j m fresh =
    ground (arith, eq_iff k j, get-remove k j (insert k tt m), get-insert k j tt m)

-- The wait leaves no entry of its own behind.
after_send-pending :
    (msg_id j : String) (reply : Reply) (a : Ipv4Addr) (o : Orchestrator) (sent : Bool)
    → (after_send msg_id reply a (o, sent)).0.pending ≡ remove msg_id o.pending
after_send-pending msg_id j acknowledged a o true = refl
after_send-pending msg_id j dropped a o true = refl
after_send-pending msg_id j timed_out a o true = refl
after_send-pending msg_id j reply a o false = refl

after_send-pool :
    (msg_id : String) (reply : Reply) (a : Ipv4Addr) (o : Orchestrator) (sent : Bool)
    → (after_send msg_id reply a (o, sent)).0.net_id_pool ≡ o.net_id_pool
after_send-pool msg_id acknowledged a o true = refl
after_send-pool msg_id dropped a o true = refl
after_send-pool msg_id timed_out a o true = refl
after_send-pool msg_id reply a o false = refl

send-after-pending :
    (msg_id j : String) (reply : Reply) (a : Ipv4Addr) (dest : IpAddr) (s : OutboundStream)
    (m : NetMessage) (o : Orchestrator)
    → (after_send msg_id reply a (send dest s m o)).0.pending ≡ remove msg_id o.pending
send-after-pending msg_id j reply a dest s m o = elim (Bool-cases s.is_open) [
  | inl up ↦ rw (up, send) (after_send-pending msg_id j reply a _ true)
  | inr down ↦ rw (down, send) (after_send-pending msg_id j reply a o false)
]

send-after-pool :
    (msg_id : String) (reply : Reply) (a : Ipv4Addr) (dest : IpAddr) (s : OutboundStream)
    (m : NetMessage) (o : Orchestrator)
    → (after_send msg_id reply a (send dest s m o)).0.net_id_pool ≡ o.net_id_pool
send-after-pool msg_id reply a dest s m o = elim (Bool-cases s.is_open) [
  | inl up ↦ rw (up, send) (after_send-pool msg_id reply a _ true)
  | inr down ↦ rw (down, send) (after_send-pool msg_id reply a o false)
]

pub made_some :
    (m : Option (Ipv4Addr × NetMessage)) (a : Ipv4Addr)
    → returned m ≡ some a
    → (r : Ipv4Addr × NetMessage) × (m ≡ some r)
made_some none a e = cc
made_some (some r) a e = (r, refl)

module _ (crate : IpNetworkCrate) (net : Net) where
  -- A setup whose message identifier is not in use leaves the same setups waiting as before, whether
  -- the node is connected or not, and whether it acknowledges, hangs up or lets the time run out.
  pub send_net_setup-pending :
      (lawful : IsLawful crate) (msg_id : String) (reply : Reply) (dest : IpAddr)
      (name : Option String) (id : ℕ) (remote : IpAddr)
      (client_docker server_docker : Option String) (dnat_port : Option ℕ) (o : Orchestrator)
      → get msg_id o.pending ≡ none
      → (j : String)
      → get j
          (send_net_setup crate net msg_id reply dest name id remote
            (client_docker, server_docker)
            dnat_port
            o).0.pending
        ≡ get j o.pending
  unfolding send_net_setup
  send_net_setup-pending lawful msg_id reply dest name id remote client_docker server_docker
        dnat_port o fresh j =
      elim (Option-cases (get dest o.clients)) [
        | inl absent ↦ rw (absent, send_net_setup) refl
        | inr (outbound, there) ↦
            let ((a, message), made) =
              made_some
                (setup crate net msg_id dest name id remote (client_docker, server_docker)
                  dnat_port)
                (server_address net id server_docker)
                (setup_address crate lawful net msg_id dest name id remote client_docker
                  server_docker dnat_port) in
            rw (there, made, send_net_setup)
              (rw
                (send-after-pending msg_id j reply a dest outbound message
                  (record o { pending = insert msg_id tt o.pending }))
                (insert-remove msg_id j o.pending fresh))
      ]

  -- A setup does not touch the pool.
  pub send_net_setup-pool :
      (msg_id : String) (reply : Reply) (dest : IpAddr) (name : Option String) (id : ℕ)
      (remote : IpAddr) (dockers : Option String × Option String) (dnat_port : Option ℕ)
      (o : Orchestrator)
      → (send_net_setup crate net msg_id reply dest name id remote dockers dnat_port
          o).0.net_id_pool
        ≡ o.net_id_pool
  unfolding send_net_setup
  send_net_setup-pool msg_id reply dest name id remote dockers dnat_port o =
      elim (Option-cases (get dest o.clients)) [
        | inl absent ↦ rw (absent, send_net_setup) refl
        | inr (outbound, there) ↦
            elim (Option-cases (setup crate net msg_id dest name id remote dockers dnat_port)) [
              | inl failed ↦ rw (there, failed, send_net_setup) refl
              | inr ((a, message), made) ↦
                  rw (there, made, send_net_setup)
                    (send-after-pool msg_id reply a dest outbound message
                      (record o { pending = insert msg_id tt o.pending }))
            ]
      ]

module _ (net : Net) where
  teardown_side-pool :
      (dest : IpAddr) (side : String) (docker : Option String) (id : ℕ) (o : Orchestrator)
      → (teardown_side net dest side docker id o).net_id_pool ≡ o.net_id_pool
  unfolding teardown_side
  teardown_side-pool dest side docker id o = elim (Option-cases (get dest o.clients)) [
    | inl absent ↦ rw (absent, teardown_side) refl
    | inr (outbound, there) ↦
        rw (there, teardown_side)
          (elim (Bool-cases outbound.is_open) [
            | inl up ↦ rw (up, send) refl
            | inr down ↦ rw (down, send) refl
          ])
  ]

  -- A teardown frees the identifier, whether the nodes are connected or not.
  pub send_net_teardown-pool :
      (client : IpAddr) (client_docker : Option String) (server : IpAddr)
      (server_docker : Option String) (id : ℕ) (o : Orchestrator)
      → (send_net_teardown net client client_docker server server_docker id o).net_id_pool
        ≡ NetIdPool.free net id o.net_id_pool
  unfolding send_net_teardown
  send_net_teardown-pool client client_docker server server_docker id o =
      rw
        (
          teardown_side-pool server "s" server_docker id
              (teardown_side net client "c" client_docker id o),
          teardown_side-pool client "c" client_docker id o,
        )
        refl

  teardown_side-absent :
      (ip dest : IpAddr) (side : String) (docker : Option String) (id : ℕ) (o : Orchestrator)
      → get ip o.clients ≡ none
      → get ip (teardown_side net dest side docker id o).clients ≡ none
  unfolding teardown_side
  teardown_side-absent ip dest side docker id o h = elim (Option-cases (get dest o.clients)) [
    | inl absent ↦ rw (absent, teardown_side) h
    | inr (outbound, there) ↦
        rw (there, teardown_side)
          (elim (Bool-cases outbound.is_open) [
            | inl up ↦
                rw (up, send)
                  (get-modify dest ip (push_message (teardown net id side docker)) o.clients
                    ∙ rw h (ground arith))
            | inr down ↦ rw (down, send) h
          ])
  ]

  -- A teardown opens no channel.
  pub send_net_teardown-absent :
      (ip client : IpAddr) (client_docker : Option String) (server : IpAddr)
      (server_docker : Option String) (id : ℕ) (o : Orchestrator)
      → get ip o.clients ≡ none
      → get ip (send_net_teardown net client client_docker server server_docker id o).clients ≡ none
  unfolding send_net_teardown
  send_net_teardown-absent ip client client_docker server server_docker id o h =
      teardown_side-absent ip server "s" server_docker id
        (teardown_side net client "c" client_docker id o)
        (teardown_side-absent ip client "c" client_docker id o h)
