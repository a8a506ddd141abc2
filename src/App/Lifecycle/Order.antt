-- ===== src/App/Lifecycle/Order.antt =====
-- The order in which runListen and runConnect of src/main.cpp make, use and stop their objects.
use lantalk.Common.{
  ℕ, ◌≡◌, refl, ◌⊎◌, inl, inr, Bool, true, false, List, [], ◌∷◌, Option, none, some, Bytes, arith,
  Option-cases, if_cases,
}
use lantalk.Cli.{ParsedArgs}
use lantalk.Terminal.{Terminal}
use lantalk.Discovery.{DiscoveredPeer}
use lantalk.App.{Shown}
use lantalk.App.Target.{has_dot, find_peer}
use lantalk.App.Listening.{run_listen}
use lantalk.App.Calling.{dial, dial_found, run_connect, run_connect_to}
use lantalk.App.Lifecycle.{
  Deal, shows, Objects, no_objects, deal, Process, new_process, signal_handler, Item, does, signal,
  run_items, deals_of,
}

-- The objects after a list of deals.
unfoldable pub objects_after : Objects → List Deal → Objects
unfolding deal
objects_after o [] = o
objects_after o (d ∷ ds) = objects_after (deal o d) ds

-- The pointer is set only to a terminal that is alive, before and after each deal.
abbrev pub PointsAlive : Objects → Type 0
PointsAlive o = o.pointer ≡ true → o.terminal ≡ true

pub AlwaysAlive : Objects → List Deal → Type 0
AlwaysAlive o [] = PointsAlive o
AlwaysAlive o (d ∷ ds) = PointsAlive o × AlwaysAlive (deal o d) ds

AlwaysAlive-head : (o : Objects) (ds : List Deal) → AlwaysAlive o ds → PointsAlive o
unfolding AlwaysAlive
AlwaysAlive-head o [] h = h
AlwaysAlive-head o (d ∷ ds) h = h.0

-- Nothing was used that is not alive, and unless a signal ended the process, the objects are those
-- that the deals leave.
abbrev pub Orderly : Objects → Process → Type 0
Orderly o p = (p.crashed ≡ false) × ((p.killed ≡ true) ⊎ (p.objects ≡ o))

signal_handler-objects : (p : Process) → (signal_handler p).objects ≡ p.objects
unfolding signal_handler
signal_handler-objects p = ground arith

signal_handler-crashed :
    (p : Process) → PointsAlive p.objects → p.crashed ≡ false → (signal_handler p).crashed ≡ false
unfolding signal_handler
signal_handler-crashed p h c = ground arith

run_items-Orderly :
    (is : List Item) (p : Process)
    → p.crashed ≡ false
    → AlwaysAlive p.objects (deals_of is)
    → Orderly (objects_after p.objects (deals_of is)) (run_items p is)
unfolding AlwaysAlive run_items deals_of objects_after
run_items-Orderly [] p c h = (c, inr refl)
run_items-Orderly (does d ∷ is) p c h = run_items-Orderly is _ c h.1
run_items-Orderly (signal ∷ is) p c h =
    let e = signal_handler-objects p in
    let alive = AlwaysAlive-head p.objects (deals_of is) h in
    let later : Orderly (objects_after p.objects (deals_of is)) (run_items (signal_handler p) is) =
      rw e at
        (run_items-Orderly is (signal_handler p) (signal_handler-crashed p alive c) (rw e h)) in
    if_cases (Orderly (objects_after p.objects (deals_of is))) p.objects.catching (λ _. later)
      (λ _. (c, inl refl))

-- Nothing runs any more, and no pointer is left.
abbrev pub IsQuiet : Objects → Type 0
IsQuiet o =
    (o.session ≡ false)
    × (o.server ≡ false)
    × (o.announcing ≡ false)
    × (o.terminal ≡ false)
    × (o.pointer ≡ false)

-- A run in which nothing dead is used, and which a signal ends or which leaves nothing behind.
abbrev pub EndsWell : Process → Type 0
EndsWell p = (p.crashed ≡ false) × ((p.killed ≡ true) ⊎ IsQuiet p.objects)

-- Deals that start and end with nothing running, the pointer being to a living terminal throughout.
abbrev WellOrdered : Bool → List Deal → Type 0
WellOrdered catching ds =
    AlwaysAlive (no_objects catching) ds × IsQuiet (objects_after (no_objects catching) ds)

run_items-EndsWell :
    (catching : Bool) (ds : List Deal) (is : List Item)
    → WellOrdered catching ds
    → deals_of is ≡ ds
    → EndsWell (run_items (new_process catching) is)
run_items-EndsWell catching ds is (alive, quiet) e =
    let (c, h) = run_items-Orderly is (new_process catching) refl (rw e alive) in
    (c, elim h [ inl k ↦ inl k | inr q ↦ inr (rw (q, e) quiet) ])

run_listen-WellOrdered :
    (t : Terminal) (args : ParsedArgs) (listen_port : ℕ) (discovery_enabled bound catching : Bool)
    → WellOrdered catching (run_listen t args listen_port discovery_enabled bound)
unfolding run_listen AlwaysAlive objects_after
run_listen-WellOrdered t args listen_port true true catching = ground arith
run_listen-WellOrdered t args listen_port true false catching = ground arith
run_listen-WellOrdered t args listen_port false true catching = ground arith
run_listen-WellOrdered t args listen_port false false catching = ground arith

shows-WellOrdered :
    (catching : Bool) (s : Shown) (ds : List Deal)
    → WellOrdered catching ds
    → WellOrdered catching (shows s ∷ ds)
unfolding AlwaysAlive objects_after
shows-WellOrdered catching s ds (alive, quiet) = ((λ e. cc, alive), quiet)

module _ (t : Terminal) (connect : Bytes → ℕ → Option Bytes) (catching : Bool) where
  dial-WellOrdered : (host : Bytes) (port : ℕ) → WellOrdered catching (dial t connect host port)
  unfolding AlwaysAlive objects_after dial
  dial-WellOrdered host port = elim (Option-cases (connect host port)) [
    | inl e ↦ rw (e, dial) (ground arith)
    | inr (reason, e) ↦ rw (e, dial) (ground arith)
  ]

  dial_found-WellOrdered :
      (host : Bytes) (found : Option DiscoveredPeer)
      → WellOrdered catching (dial_found t connect host found)
  unfolding dial_found
  dial_found-WellOrdered host none = unfold AlwaysAlive objects_after in ground arith
  dial_found-WellOrdered host (some p) =
      shows-WellOrdered catching _ _ (dial-WellOrdered p.ip_address p.tcp_port)

  run_connect_to-WellOrdered :
      (host : Bytes) (port : ℕ) (peers : List DiscoveredPeer)
      → WellOrdered catching (run_connect_to t connect host port peers)
  unfolding run_connect_to
  run_connect_to-WellOrdered host port peers = shows-WellOrdered catching _ _ (
      if_cases (WellOrdered catching) (has_dot host) (λ _. dial-WellOrdered host port)
        (λ _. shows-WellOrdered catching _ _ (dial_found-WellOrdered host (find_peer host peers))))

  words-WellOrdered :
      (args : ParsedArgs) (words : List Bytes) (listen_port : ℕ) (peers : List DiscoveredPeer)
      → args.positional ≡ words
      → WellOrdered catching (run_connect t connect args listen_port peers)
  unfolding run_connect
  words-WellOrdered args [] listen_port peers e =
      rw e (unfold AlwaysAlive objects_after in ground arith)
  words-WellOrdered args (host ∷ more) listen_port peers e =
      rw e (run_connect_to-WellOrdered host _ peers)

-- Signals at any points of a run of `listen` or `connect`, on every branch of either: the handler
-- never uses a terminal that is not alive, and unless a signal that is not caught yet ends the
-- process, the run leaves no session, server, announcements, terminal or pointer behind.
pub commands-EndWell :
    (t : Terminal) (args : ParsedArgs) (listen_port : ℕ) (discovery_enabled bound catching : Bool)
    (connect : Bytes → ℕ → Option Bytes) (peers : List DiscoveredPeer) (is : List Item)
    → (deals_of is ≡ run_listen t args listen_port discovery_enabled bound)
      ⊎ (deals_of is ≡ run_connect t connect args listen_port peers)
    → EndsWell (run_items (new_process catching) is)
commands-EndWell t args listen_port discovery_enabled bound catching connect peers is (inl e) =
    run_items-EndsWell catching _ is
      (run_listen-WellOrdered t args listen_port discovery_enabled bound catching) e
commands-EndWell t args listen_port discovery_enabled bound catching connect peers is (inr e) =
    run_items-EndsWell catching _ is
      (words-WellOrdered t connect catching args args.positional listen_port peers refl) e
