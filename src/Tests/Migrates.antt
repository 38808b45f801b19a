-- ===== src/Tests/Migrates.antt =====
-- A registered migration of src/meta/zp_meta_migrate_register.cc over a floyd in memory.
use Prim.Native.String.{String, [] as no_chars, ◌∷◌ as ◌∷ₛ◌}
use Prim.Native.Char.{Char, char}
use text.Mathlib.Text.{◌==◌ as str_eq}
use zeppelin.Base.{
  ℕ, ◌≡◌, refl, ap, ◌∙◌, Bool, true, false, Option, none, some, List, [], ◌∷◌, ◌==◌, arith,
  if◌then◌else◌,
}
use zeppelin.Env.{Status, ok, not_found}
use zeppelin.Meta.Data.{Node}
use zeppelin.Meta.Migrate.{
  Head, Floyd, Register, head_key, exist, fresh, init_migrate, load_migrate,
}
use zeppelin.Meta.Migrate.Recovery.{FloydLaws, init_migrate-load_migrate}
use zeppelin.Tests.Instances.{print, scan, scan-print}

-- Names, each character behind a 1 and each end a 0.
abbrev pub print_name : String → String → String
print_name no_chars rest = char 48 tt ∷ₛ rest
print_name (c ∷ₛ s) rest = char 49 tt ∷ₛ (c ∷ₛ print_name s rest)

abbrev pub print_names : List String → String
print_names [] = no_chars
print_names (n ∷ ns) = print_name n (print_names ns)

abbrev pub push : Char → List String → List String
push c [] = []
push c (n ∷ ns) = (c ∷ₛ n) ∷ ns

abbrev pub scan_names : String → List String
scan_names no_chars = []
scan_names (char n p ∷ₛ no_chars) = no_chars ∷ []
scan_names (char n p ∷ₛ (c ∷ₛ s)) =
    let rest = scan_names (c ∷ₛ s) in
    let rest' = scan_names s in if n == 48 then no_chars ∷ rest else push c rest'

scan_names-print_name : (s rest : String) → scan_names (print_name s rest) ≡ s ∷ scan_names rest
scan_names-print_name no_chars no_chars = refl
scan_names-print_name no_chars (c ∷ₛ rest) = refl
scan_names-print_name (c ∷ₛ s) rest = ap (push c) (scan_names-print_name s rest)

pub scan_names-print_names : (ns : List String) → scan_names (print_names ns) ≡ ns
scan_names-print_names [] = refl
scan_names-print_names (n ∷ ns) =
    scan_names-print_name n (print_names ns) ∙ ap (λ l. n ∷ l) (scan_names-print_names ns)

-- The begin time and the size are read as the ports of addresses are.
abbrev head_of : ℕ → Option Node → Option Head
head_of time none = none
head_of time (some n) =
    some (record { begin_time = time; init_size = n.port; diff_names = scan_names n.ip })

abbrev scan_rest : Option Node → Option Head
scan_rest none = none
scan_rest (some n) = head_of n.port (scan n.ip)

abbrev print_head : Head → String
print_head h = print h.begin_time (print h.init_size (print_names h.diff_names))

scan_head-print_head : (h : Head) → scan_rest (scan (print_head h)) ≡ some h
scan_head-print_head h =
    ap scan_rest (scan-print h.begin_time (print h.init_size (print_names h.diff_names)))
    ∙ (ap (head_of h.begin_time) (scan-print h.init_size (print_names h.diff_names))
        ∙ ap
            (λ (l : List String).
              some (record { begin_time = h.begin_time; init_size = h.init_size; diff_names = l }))
            (scan_names-print_names h.diff_names))

abbrev pub found : Option String → Status × String
found none = (not_found, no_chars)
found (some v) = (ok, v)

-- There are two diffs.
abbrev name : Bool → String
name true = "a_0"
name false = "b_0"

abbrev in_memory : Floyd
in_memory = record {
  Store = String → Option String;
  write = λ st k v. (ok, λ j. if str_eq k j then some v else st j);
  read = λ st k. found (st k);
  delete = λ st k. (ok, λ j. if str_eq k j then none else st j);
  Diff = Bool;
  diff_key = name;
  serialize = λ d. some (name d);
  parse = λ v. some (str_eq v "a_0");
  serialize_head = λ h. some (print_head h);
  parse_head = λ v. scan_rest (scan v);
}

found-if :
    (b : Bool) (v : String) (o : Option String)
    → found (if b then some v else o) ≡ (if b then (ok, v) else found o)
found-if true v o = refl
found-if false v o = refl

parse-name : (d : Bool) → (v : String) × (some (name d) ≡ some v) × (some (str_eq v "a_0") ≡ some d)
parse-name true = ("a_0", refl, refl)
parse-name false = ("b_0", refl, refl)

name-ne : (d : Bool) → str_eq head_key (name d) ≡ false
name-ne true = refl
name-ne false = refl

in_memory_laws : FloydLaws in_memory
in_memory_laws = record {
  write_ok = λ st k v. refl;
  read-write = λ st k v j. found-if (str_eq k j) v (st j);
  parse-serialize = parse-name;
  parse_head-serialize_head = λ h. (print_head h, refl, scan_head-print_head h);
  diff_key-ne = name-ne;
}

abbrev pub nothing_stored : String → Option String
nothing_stored k = none

init_migrate-load_migrate_example :
    (r : Register in_memory) × (init_migrate in_memory 7
        (fresh in_memory nothing_stored)
        (true ∷ false ∷ [])
      ≡ (ok, r))
    × (exist in_memory r ≡ true)
    × (load_migrate in_memory (fresh in_memory r.store) ≡ (ok, r))
init_migrate-load_migrate_example =
    init_migrate-load_migrate in_memory in_memory_laws 7 nothing_stored true (false ∷ [])
      (omega arith)
