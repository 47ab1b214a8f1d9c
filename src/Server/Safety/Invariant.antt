-- ===== src/Server/Safety/Invariant.antt =====
-- The invariant of src/server.cpp: each client stands at its descriptor and has the connection that its
-- state needs, and `request_clients_map` lists live clients only, each under its own request.
use spx.Prelude.{ℕ, ◌≡◌, str_discrete, List, some, Str, arith}
use spx.Dict.{lookup, assign, lookup-assign}
use spx.Net.Sys.{Host}
use spx.Http.Parser.{Parser}
use spx.Clients.Client.{Client}
use spx.Clients.ClientsList.{find_client, store_client}
use spx.Server.State.{Server}
use spx.Server.Safety.Slots.{remove_client, Placed, Live, store_client-Placed}
use spx.Server.Safety.Tame.{
  Steady, remove_client-AllJoined, remove_client-store_client, Ready, Wired, AllListed, AllJoined,
  Tame, AllJoined-find, AllJoined-store_client, store_client-Live, store_client-Ready,
  store_client-Wired, store_client-AllListed,
}

module _ {lib : Parser} where
  pub record Inv {W : Type 0} (s : Server lib W) : Type 0 where
    pub placed : Placed 0 s.clients.slots
    pub listed :
        (req : Str) (ids : List ℕ)
        → lookup req s.request_clients_map ≡ some ids
        → AllListed req s.clients.slots ids
    pub joined : AllJoined s.clients.slots

  -- The invariant, with every client of an earlier state still alive, and still ready or wired if
  -- it was.
  pub record After {W : Type 0} (s t : Server lib W) : Type 0 where
    pub inv : Inv t
    pub alive : (id : ℕ) → Live id s.clients.slots → Live id t.clients.slots
    pub ready : (id : ℕ) → Ready id s.clients.slots → Ready id t.clients.slots
    pub wired : (id : ℕ) → Wired id s.clients.slots → Wired id t.clients.slots

  pub After-refl : {W : Type 0} (s : Server lib W) → Inv s → After s s
  After-refl s v = record { inv = v; alive = λ id h. h; ready = λ id h. h; wired = λ id h. h }

  -- The invariant, but for the connection of one client, which is alive.
  pub record InvBut {W : Type 0} (id : ℕ) (s : Server lib W) : Type 0 where
    pub placed : Placed 0 s.clients.slots
    pub listed :
        (req : Str) (ids : List ℕ)
        → lookup req s.request_clients_map ≡ some ids
        → AllListed req s.clients.slots ids
    pub joined : AllJoined (remove_client id s.clients.slots)
    pub alive : Live id s.clients.slots

  pub Inv-InvBut :
      {W : Type 0} (id : ℕ) (s : Server lib W) → Inv s → Live id s.clients.slots → InvBut id s
  Inv-InvBut id s v l = record {
    placed = v.placed;
    listed = v.listed;
    joined = remove_client-AllJoined id s.clients.slots v.joined;
    alive = l;
  }

  -- A client is changed, and may lose its connection.
  pub store_client-InvBut :
      {W : Type 0} (id : ℕ) (s : Server lib W) (h : Host W) (c d : Client lib)
      → Inv s
      → find_client id s.clients.slots ≡ some c
      → d.id ≡ id
      → Steady c d
      → InvBut id
          (record s { clients = record { slots = store_client d s.clients.slots; host = h } })
  store_client-InvBut id s h c d v found e k =
      let f : find_client d.id s.clients.slots ≡ some c = rw e found in
      record {
        placed = store_client-Placed 0 s.clients.slots c d v.placed f k.client_connection;
        listed = λ req ids q.
            store_client-AllListed s.clients.slots c d f k req ids (v.listed req ids q);
        joined =
            rw (← e, remove_client-store_client s.clients.slots d)
              (remove_client-AllJoined d.id s.clients.slots v.joined);
        alive = store_client-Live s.clients.slots c d f k id (c, found);
      }

  -- A client is changed.
  pub store_client-After :
      {W : Type 0} {base : Server lib W} (s : Server lib W) (h : Host W) (c d : Client lib)
      → After base s
      → find_client d.id s.clients.slots ≡ some c
      → Tame c d
      → After base
          (record s { clients = record { slots = store_client d s.clients.slots; host = h } })
  store_client-After s h c d a found k = record {
    inv = record {
      placed = store_client-Placed 0 s.clients.slots c d a.inv.placed found k.client_connection;
      listed = λ req ids e.
          store_client-AllListed s.clients.slots c d found k.steady req ids
            (a.inv.listed req ids e);
      joined =
          AllJoined-store_client s.clients.slots d
            (k.joined (AllJoined-find d.id s.clients.slots c found a.inv.joined)) a.inv.joined;
    };
    alive = λ id v. store_client-Live s.clients.slots c d found k.steady id (a.alive id v);
    ready = λ id v. store_client-Ready s.clients.slots c d found k.steady id (a.ready id v);
    wired = λ id v. store_client-Wired s.clients.slots c d found k.steady k.wired id (a.wired id v);
  }

  -- The list of a request is replaced.
  pub assign-After :
      {W : Type 0} {base : Server lib W} (s : Server lib W) (req : Str) (ids : List ℕ)
      → After base s
      → AllListed req s.clients.slots ids
      → After base (record s { request_clients_map = assign req ids s.request_clients_map })
  assign-After s req ids a h = record {
    inv = record {
      placed = a.inv.placed;
      listed = λ r js e. elim (str_discrete req r) [
        | yes same ↦
            let eq : ids ≡ js = ground (arith, lookup-assign r req ids s.request_clients_map) in
            rw (← same, ← eq) h
        | no other ↦
            a.inv.listed r js (ground (arith, lookup-assign r req ids s.request_clients_map))
      ];
      joined = a.inv.joined;
    };
    alive = a.alive;
    ready = a.ready;
    wired = a.wired;
  }
