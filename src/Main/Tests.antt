-- ===== src/Main/Tests.antt =====
-- Arguments of the program.
use spx.Prelude.{ℕ, ◌≡◌, sym, ap, ◌∙◌, refl, true, arith, [], ◌∷◌, Str, codes}
use spx.Prelude.Int.{pos, Stoi, stoi, skip_spaces, signed, convert, digits_value}
use spx.Prelude.Decimal.{to_string}
use spx.Outcome.{returns}
use spx.Server.Tests.{no_parser, bringing}
use spx.Main.{Exit, Status, main, parse_port, checked_port}
use spx.Main.Port.{Served, parse_port-Served, parse_port-to_string, rejected, main-rejected}

abbrev good : Str
good = codes "8080"

abbrev huge : Str
huge = codes "9999999999"

good_port : parse_port {S = ℕ} (codes "spx" ∷ good ∷ []) 0 ≡ returns 8080 0
unfolding parse_port checked_port stoi skip_spaces signed convert digits_value
good_port = refl

parse_port-Served_example : Served (codes "spx" ∷ good ∷ []) 8080
parse_port-Served_example = parse_port-Served {S = ℕ} (codes "spx" ∷ good ∷ []) 0 0 8080 good_port

parse_port-to_string_example :
    parse_port {S = ℕ} (codes "spx" ∷ to_string 8080 ∷ []) 0 ≡ returns 8080 0
parse_port-to_string_example =
    parse_port-to_string {S = ℕ} (codes "spx") 8080 0 (omega arith) (omega arith)

huge_port : stoi huge ≡ Stoi.out_of_int
unfolding stoi skip_spaces signed convert digits_value
huge_port = refl

huge_port_unserved : (port : ℕ) → ¬ Served (codes "spx" ∷ huge ∷ []) port
huge_port_unserved port k =
    let same : huge ≡ k.text = ground (arith, k.argv_eq) in
    let value : Stoi.out_of_int ≡ Stoi.value (pos port) = sym huge_port ∙ ap stoi same ∙ k.value in
    cc

main-rejected_example :
    main no_parser
      (bringing [])
      (codes "spx" ∷ huge ∷ [])
      (true ∷ [])
      (record { world = tt; next_id = 0 })
    ≡ Exit.ended (rejected (codes "spx" ∷ huge ∷ [])) (record { world = tt; next_id = 0 })
main-rejected_example =
    main-rejected no_parser (bringing []) (codes "spx" ∷ huge ∷ []) (true ∷ [])
      (record { world = tt; next_id = 0 }) huge_port_unserved

huge_port_terminates : rejected (codes "spx" ∷ huge ∷ []) ≡ Status.terminated
huge_port_terminates = rw huge_port refl
