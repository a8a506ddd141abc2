-- ===== src/Examples/Devices.antt =====
-- Identifiers, discovery and the command line at concrete inputs.
use lantalk.Common.{
  ◌<◌, ◌↔◌, ◌⊎◌, ◌≡◌, refl, ◌≢◌, List, [], ◌∷◌, none, some, true, arith, Bytes, codes,
}
use lantalk.Common.ByteString.{eq_bytes}
use lantalk.Discovery.{
  Announced, Scan, Datagram, build_announce_packet, parse_announce_packet, scan, scan_port,
}
use lantalk.Discovery.Safety.{parse_announce_packet-safe}
use lantalk.Discovery.Announcing.{announce_loop, Hears, since, announce_loop-Hears}
use lantalk.Discovery.RoundTrip.{parse-build}
use lantalk.Discovery.Peers.{IsScan, scan-IsScan}
use lantalk.Discovery.Latest.{find, latest, find-scan_port}
use lantalk.Cli.{no_args, parse}
use lantalk.Cli.CommandLine.{Item, words, apply_all, IsCommand, IsClear, parse-words}

abbrev random_bytes : Bytes
random_bytes = 1 ∷ 2 ∷ 3 ∷ 4 ∷ 5 ∷ 6 ∷ 255 ∷ 8 ∷ 255 ∷ 10 ∷ 11 ∷ 12 ∷ 13 ∷ 14 ∷ 15 ∷ 16 ∷ []

parse_announce_packet-safe_example :
    parse_announce_packet (codes "LTLD, and not much more") (codes "10.0.0.2") 7 ≢ none
parse_announce_packet-safe_example =
    parse_announce_packet-safe (codes "LTLD, and not much more") (codes "10.0.0.2") 7

abbrev laptop : Announced
laptop = record { listen_port = 5050; device_id = codes "dev-b"; display_name = codes "Bob" }

parse-build_example :
    parse_announce_packet (build_announce_packet laptop) (codes "10.0.0.2") 7
    ≡ some (
        some record {
          ip_address = codes "10.0.0.2";
          tcp_port = 5050;
          device_id = codes "dev-b";
          display_name = codes "Bob";
          platform = codes "linux";
          protocol_version = 1;
          last_seen = 7;
        })
parse-build_example =
    parse-build laptop (codes "10.0.0.2") 7 (omega arith) (omega arith)
      (refl, (refl, (refl, (refl, (refl, tt))))) (omega arith)

-- The same device, heard twice.
abbrev heard : List Datagram
heard =
    record { content = build_announce_packet laptop; sender = codes "10.0.0.2"; at = 7 }
    ∷ record { content = build_announce_packet laptop; sender = codes "10.0.0.3"; at = 9 }
    ∷ []

abbrev nothing_yet : Scan
nothing_yet = record { results = []; calls = [] }

scan-IsScan_example : IsScan (codes "dev-a") (scan (codes "dev-a") heard nothing_yet)
scan-IsScan_example =
    scan-IsScan (codes "dev-a") heard nothing_yet
      (record { distinct = tt; foreign = tt; called = refl })

find-scan_port_example :
    find (codes "dev-b") (scan_port (codes "dev-a") true true heard).results
    ≡ latest (codes "dev-b") heard none
unfolding eq_bytes
find-scan_port_example = find-scan_port (codes "dev-a") (codes "dev-b") refl heard

abbrev some_items : List Item
some_items =
    Item.word (codes "10.0.0.2")
    ∷ Item.switch (codes "verbose")
    ∷ Item.option (codes "log-level") (codes "debug")
    ∷ []

connect-IsCommand : IsCommand (codes "connect")
unfolding eq_bytes
connect-IsCommand = (refl, refl)

some_items-IsClear : IsClear some_items
unfolding eq_bytes
some_items-IsClear = (refl, (tt, (refl, tt)))

parse-words_example :
    parse (codes "lantalk" ∷ codes "connect" ∷ words some_items)
    ≡ apply_all some_items (record no_args { command = codes "connect" })
parse-words_example =
    parse-words (codes "lantalk") (codes "connect") some_items connect-IsCommand some_items-IsClear

-- A device that announces for an hour, and a scan that begins 10 seconds after it started.
announce_loop-Hears_example :
    let ticks = announce_loop 36001 0 36000 in
    Hears ticks 100 300 × (Hears ticks 100 30 ↔ ((since 0 100 ≡ 0) ⊎ (270 < since 0 100)))
announce_loop-Hears_example =
    announce_loop-Hears 36001 0 36000 100 (omega arith) (omega arith) (omega arith)
