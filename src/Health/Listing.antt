-- ===== src/Health/Listing.antt =====
-- The table of list-targets (printHealthTable in health.go), without the legend and the groups below it.
-- An error of more than 30 bytes is cut at its 30th; where this is inside a character, the source prints a
-- part of it.
use Prim.Native.String.{slice, len}
use remotecmd_cli.Prelude.{
  ℕ, ◌-◌, String, ◌⧺◌, not, ◌&&◌, Option, none, some, List, [], ◌∷◌, ◌==◌, arith, ltb, map,
  if◌then◌else◌,
}
use remotecmd_cli.Prelude.Chars.{runes}
use remotecmd_cli.Dict
use remotecmd_cli.Dict.{Dict}
use remotecmd_cli.Config.{TargetConfig}
use remotecmd_cli.Version.{version_less}
use remotecmd_cli.Health.{TargetHealth, Cache, health_of}
use remotecmd_cli.Health.Age.{ago_string}
use remotecmd_cli.Health.Table.{Cell, print_aligned_table}
use remotecmd_cli.Health.Table.Columns.{AtMost}
use remotecmd_cli.Health.Table.Layout.{IsLaidOut, print_aligned_table-IsLaidOut}

-- What the table is printed with: decimal notation, the client's version, and the time.
pub record Printer : Type 0 where
  pub decimal : ℕ → String
  pub current : String
  pub now : ℕ

abbrev display_name : String → String → String
display_name alias relay_name =
    if not (relay_name == "") && not (relay_name == alias)
    then alias ⧺ " → " ⧺ relay_name
    else alias

abbrev checked_ago : Printer → Option ℕ → String
checked_ago p none = "never"
checked_ago p (some t) = "checked " ⧺ ago_string p.decimal (p.now - t)

abbrev seen_text : Printer → TargetHealth → Option ℕ → String
seen_text p h (some t) = ago_string p.decimal (p.now - t)
seen_text p h none = if h.status == "down" then checked_ago p h.last_check else "never"

abbrev cut : String → String
cut s = if ltb 30 (len s) then slice s 0 30 ⧺ "..." else s

abbrev host_text : TargetHealth → String
host_text h = if h.status == "down" && not (h.error == "") then cut h.error else h.hostname

abbrev version_text : Printer → String → String
version_text p v =
    if v == "" then "?" else if version_less (runes v) (runes p.current) then v ⧺ "*" else v

abbrev relay_name_of : Option TargetConfig → String
relay_name_of none = ""
relay_name_of (some tgt) = tgt.relay_name

-- The row of a target.
unfoldable pub health_row : Printer → Dict TargetConfig → Cache → String → List String
health_row p targets c alias =
    let h = health_of c alias in
    display_name alias (relay_name_of (Dict.get targets alias))
    ∷ (if h.status == "" then "unknown" else h.status)
    ∷ seen_text p h h.last_seen
    ∷ version_text p h.version
    ∷ host_text h
    ∷ []

unfoldable pub health_rows : Printer → Dict TargetConfig → Cache → List String → List (List Cell)
unfolding health_row
health_rows p targets c [] = []
health_rows p targets c (alias ∷ aliases) =
    map runes (health_row p targets c alias) ∷ health_rows p targets c aliases

abbrev pub header_row : List Cell
header_row = map runes ("TARGET" ∷ "STATUS" ∷ "SEEN" ∷ "VERSION" ∷ "HOSTNAME" ∷ [])

-- printHealthTable, up to the legend: the lines that it prints. `none` is a panic.
unfoldable pub print_health_table :
    Printer → Dict TargetConfig → Cache → List String → Option (List (List ℕ))
unfolding health_rows
print_health_table p targets c [] = some (runes "No targets configured" ∷ [])
print_health_table p targets c (alias ∷ aliases) =
    print_aligned_table (header_row ∷ health_rows p targets c (alias ∷ aliases))

health_rows-AtMost :
    (p : Printer) (targets : Dict TargetConfig) (c : Cache) (aliases : List String)
    → AtMost 5 (health_rows p targets c aliases)
unfolding health_rows
health_rows-AtMost p targets c [] = _
health_rows-AtMost p targets c (alias ∷ aliases) =
    (omega arith, health_rows-AtMost p targets c aliases)

-- The table of one target or more is printed without a panic, and its columns are aligned: there are
-- column widths such that in each line, the header's and each target's, each cell stands at the start of
-- its column, behind the columns before it.
pub print_health_table-IsLaidOut :
    (p : Printer) (targets : Dict TargetConfig) (c : Cache) (alias : String) (aliases : List String)
    → IsLaidOut
        (header_row ∷ health_rows p targets c (alias ∷ aliases))
        (print_health_table p targets c (alias ∷ aliases))
unfolding print_health_table
print_health_table-IsLaidOut p targets c alias aliases =
    print_aligned_table-IsLaidOut header_row (health_rows p targets c (alias ∷ aliases))
      (health_rows-AtMost p targets c (alias ∷ aliases))
