-- ===== src/Module/Find.antt =====
-- What `get_module_by_name` finds.
use treeos.Base.{
  ℕ, ◌+◌, ◌<◌, ◌≡◌, ◌≢◌, refl, List, [], ◌∷◌, Result, ok, ◌>>=◌, ◌==◌, if◌then◌else◌, length,
  ne→==_false,
}
use treeos.Str.{Bytes, word, strcmp}
use treeos.Str.Strings.{StringAt, Orders, equal, unequal, strcmp_lem}
use treeos.Module.{Modules, find_module, get_module_by_name}

-- The names of the entries of a table.
abbrev pub Named : Bytes → (entry : ℕ) → List (List ℕ) → Type 0
Named b entry [] = Unit {0}
Named b entry (n ∷ ns) = StringAt b entry n × Named b (entry + 16) ns

-- The address of the first entry named `str`, or the null pointer.
pub data Finds (b : Bytes) (str : List ℕ) (result : Result ℕ) : ℕ → List (List ℕ) → Type 0 where
  nowhere : {entry : ℕ} → result ≡ ok 0 → Finds b str result entry []
  here :
      {entry : ℕ} {n : List ℕ} {ns : List (List ℕ)}
      → str ≡ n
      → result ≡ ok (word b (entry + 8))
      → Finds b str result entry (n ∷ ns)
  there :
      {entry : ℕ} {n : List ℕ} {ns : List (List ℕ)}
      → str ≢ n
      → Finds b str result (entry + 16) ns
      → Finds b str result entry (n ∷ ns)

module _ (b : Bytes) (bytes : (a : ℕ) → b a < 256) (str : List ℕ) (name fuel : ℕ)
    (given : StringAt b name str) (enough : length str < fuel) where
  compared :
      {n : List ℕ} {ns : List (List ℕ)} {entry : ℕ} {rest : Result ℕ} (r : Result ℕ)
      → Orders str n r
      → Finds b str rest (entry + 16) ns
      → Finds b str (r >>= λ r. if r == 0 then ok (word b (entry + 8)) else rest) entry (n ∷ ns)
  compared r (equal e) f = here e refl
  compared r (unequal d ne nonzero) f = rw (ne→==_false d 0 nonzero) (there ne f)

  find_module_lem :
      (ns : List (List ℕ)) (entry : ℕ)
      → Named b entry ns
      → Finds b str (find_module fuel name b (length ns) entry) entry ns
  unfolding find_module
  find_module_lem [] entry named = nowhere refl
  find_module_lem (n ∷ ns) entry (first, named) =
      compared (strcmp fuel name entry b)
        (strcmp_lem b bytes str n fuel name entry given first enough)
        (find_module_lem ns (entry + 16) named)

-- In a table whose entries have names, `get_module_by_name` returns, and it gives the address in the
-- first entry with the name that it is given, and the null pointer where there is none.
pub get_module_by_name_lem :
    (s : Modules) (ns : List (List ℕ)) (str : List ℕ) (name fuel : ℕ)
    → ((a : ℕ) → s.bytes a < 256)
    → StringAt s.bytes name str
    → length str < fuel
    → Named s.bytes s.module_table ns
    → s.module_table_size ≡ length ns
    → Finds s.bytes str (get_module_by_name fuel name s) s.module_table ns
unfolding get_module_by_name
get_module_by_name_lem s ns str name fuel bytes given enough named size =
    rw size (find_module_lem s.bytes bytes str name fuel given enough ns s.module_table named)
