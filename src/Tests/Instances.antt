-- ===== src/Tests/Instances.antt =====
-- Files and directories in memory, and addresses with the port in unary: stand-ins for slash, on
-- which src/common/zp_binlog.cc and src/meta/zp_meta_info_store.cc run.
use Prim.Native.String.{String, [] as no_chars, ◌∷◌ as ◌∷ₛ◌}
use Prim.Native.Char.{char}
use zeppelin.Base.{
  ℕ, zero, suc, ◌≡◌, refl, sym, ap, Bool, ◌&&◌, ◌||◌, not, Option, none, some, List, [], ◌++◌,
  length, take, drop, leb, leb→le, le→leb, lt→not-leb, length-take, take-append-drop, ◌==◌, arith,
  if◌then◌else◌, Bool-cases, inl, inr, of_some,
}
use zeppelin.Env.{
  Status, ok, end_file, WritableFiles, WritableLaws, SequentialFiles, SequentialLaws,
}
use zeppelin.Binlog.Log.{LogDirs}
use zeppelin.Binlog.Log.Contiguous.{DirLaws}
use zeppelin.Meta.Data.{Node, Formats}

abbrev pub memory : WritableFiles
memory = record {
  File = List ℕ;
  append = λ f bs. (ok, f ++ bs);
  flush = λ f. (ok, f);
  file_size = length;
  trim = λ f n. (ok, take n f);
}

abbrev pub memory_laws : WritableLaws memory
memory_laws = record {
  contents = λ f. f;
  append_ok = λ f bs. refl;
  append_contents = λ f bs. refl;
  flush_ok = λ f. refl;
  flush_contents = λ f. refl;
  file_size_length = λ f. refl;
}

abbrev read_bytes : List ℕ → ℕ → Status × List ℕ × List ℕ
read_bytes f n = if leb n (length f) then (ok, take n f, drop n f) else (end_file, [], [])

pub read_bytes-length :
    (f : List ℕ) (n : ℕ) → (read_bytes f n).0 ≡ ok → length (read_bytes f n).1 ≡ n
read_bytes-length f n e = elim (Bool-cases (leb n (length f))) [
  | inl fits ↦ rw fits (omega (arith, length-take n f, leb→le n (length f) fits))
  | inr short ↦ absurd (ground (arith, short))
]

pub read_bytes-rest :
    (f : List ℕ) (n : ℕ) → (read_bytes f n).0 ≡ ok → f ≡ (read_bytes f n).1 ++ (read_bytes f n).2
read_bytes-rest f n e = elim (Bool-cases (leb n (length f))) [
  | inl fits ↦ rw fits (sym (take-append-drop n f))
  | inr short ↦ absurd (ground (arith, short))
]

abbrev pub tape : SequentialFiles
tape = record { File = List ℕ; read = read_bytes; skip = λ f n. (ok, drop n f) }

abbrev pub tape_laws : SequentialLaws tape
tape_laws = record {
  rest = λ f. f;
  read_length = read_bytes-length;
  read_rest = read_bytes-rest;
  read_ok = λ f n h. rw (le→leb n (length f) h);
  read_end = λ f n h. rw (lt→not-leb n (length f) h);
  skip_rest = λ f n. refl;
}

abbrev pub directory : LogDirs
directory = record {
  files = memory;
  Dir = ℕ → Bool;
  file_exists = λ dir n. dir n;
  delete_file = λ dir n. (ok, λ i. not (i == n) && dir i);
  create = λ dir n. some ([], λ i. i == n || dir i);
  new_manifest = λ dir. ok;
  append_to = λ dir num offset. (ok, []);
}

abbrev pub directory_laws : DirLaws directory
directory_laws = record {
  delete_ok = λ dir n. refl;
  exists-delete = λ dir n i. refl;
  create_ok = λ dir n. ([], (λ i. i == n || dir i), refl);
  exists-create = λ dir n e i. ap (λ x. x.1 i) (sym (of_some e));
}

abbrev pub print : ℕ → String → String
print zero ip = char 58 tt ∷ₛ ip
print (suc port) ip = char 49 tt ∷ₛ print port ip

abbrev one_more : Option Node → Option Node
one_more none = none
one_more (some n) = some (record n { port = suc n.port })

abbrev pub scan : String → Option Node
scan no_chars = none
scan (char c p ∷ₛ s) =
    let rest = scan s in if c == 58 then some (record { ip = s; port = 0 }) else one_more rest

pub scan-print :
    (port : ℕ) (ip : String) → scan (print port ip) ≡ some (record { ip = ip; port = port })
scan-print zero ip = refl
scan-print (suc port) ip = ap one_more (scan-print port ip)

abbrev pub unary : Formats
unary = record {
  ip_port = λ n. print n.port n.ip;
  parse = scan;
  offset_key = λ table id. print id table;
  parse-ip_port = λ n e. scan-print n.port n.ip;
}
