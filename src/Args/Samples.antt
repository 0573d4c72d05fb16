-- ===== src/Args/Samples.antt =====
-- The theorem on switches at a concrete command line, and tests of the definitions.
use xtru.Common.{
  Bytes, codes, Result, runtime_error, err, ok, ◌≡◌, refl, Bool, true, Option, none, some, List, [],
  ◌∷◌,
}
use xtru.Args.Search.{
  SwitchUtils, ArgUtils, add_opt, make_args, search_opt, search_invalid_opt, does_tag_exist,
}
use xtru.Args.Taken.{SearchEnds, search_opt-SearchEnds}

abbrev switches : SwitchUtils
switches = record {
  switches = codes "/f" ∷ codes "/inv" ∷ [];
  usable = (codes "file", codes "/f" ∷ []) ∷ (codes "inverse", codes "/inv" ∷ []) ∷ [];
}

abbrev line : List Bytes
line = codes "mkcrd" ∷ codes "/f" ∷ codes "x" ∷ codes "/inv" ∷ []

abbrev identity : List Bytes → List Bytes → List Bytes
identity synonyms operands = operands

registered :
    add_opt
      (codes "/inv" ∷ [])
      (codes "inverse")
      (add_opt (codes "/f" ∷ []) (codes "file") (record { switches = []; usable = [] }))
    ≡ switches
unfolding add_opt
registered = refl

abbrev shown : Result (Bool × ArgUtils) → Option (Bool × List Bytes × List Bytes × Bool)
unfolding does_tag_exist
shown (err e) = none
shown (ok r) = some (r.0, r.1.operands, r.1.taken, does_tag_exist (codes "file") r.1)

file_taken :
    shown (search_opt switches (codes "file") 1 1 1 identity (make_args line))
    ≡ some (true, codes "/inv" ∷ [], codes "/f" ∷ codes "x" ∷ [], true)
unfolding search_opt make_args shown
file_taken = refl

left_over : search_invalid_opt switches (codes "/inv" ∷ []) ≡ err runtime_error
unfolding search_invalid_opt
left_over = refl

search_opt-SearchEnds_example :
    SearchEnds switches
      (codes "file")
      1
      1
      1
      (codes "/f" ∷ [])
      (make_args line)
      (search_opt switches (codes "file") 1 1 1 identity (make_args line))
search_opt-SearchEnds_example =
    search_opt-SearchEnds switches (codes "file") 1 1 1 identity (make_args line) (codes "/f" ∷ [])
      refl
