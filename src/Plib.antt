-- ===== src/Plib.antt =====
-- runtime/build_driver.c: compiled modules, the PLIB v3 artifact that is written for a module of the
-- standard library, read when the module is imported, and linked.
--
-- A file is its bytes, and a text is its bytes, none of them zero. Memory and the file system serve
-- every request: what an unreadable file gives is `none`. The sums of offsets stay below 2^64, since
-- every length in them is bounded before it is added.
pub mod Bytes
pub mod Laws
pub mod Within
mod Tests
use prismio.Base.{
  ℕ, zero, suc, ◌+◌, ◌-◌, ◌*◌, ◌/◌, ◌%◌, Bool, true, false, not, ◌&&◌, ◌||◌, Option, none, some,
  List, [], ◌∷◌, ◌++◌, ◌==◌, ltb, leb, if◌then◌else◌, length, take, drop,
}
use prismio.Base.Find.{find}

pub record Section : Type 0 where
  pub triple : List ℕ
  pub bitcode_offset : ℕ
  pub bitcode_size : ℕ
  pub verify_bitcode_offset : ℕ
  pub verify_bitcode_size : ℕ

pub record Plib : Type 0 where
  pub name : List ℕ
  pub path : List ℕ
  pub sections : List Section

-- prismio_plibs and its count
abbrev pub Registry : Type 0
Registry = List Plib

-- What prismio_plib_error says.
pub data PlibError : Type 0 where
  cannot_open : PlibError
  not_plib : PlibError
  invalid_header : PlibError
  truncated_name : PlibError
  other_module : List ℕ → PlibError
  truncated_interface : PlibError
  truncated_table : PlibError
  invalid_section : ℕ → PlibError
  two_sections : List ℕ → PlibError
  wrong_length : PlibError
  too_many : PlibError

pub data Load (A : Type 0) : Type 0 where
  refused : PlibError → Load A
  loaded : A → Load A

infixl 5 ◌>>=◌
abbrev pub ◌>>=◌ : {A B : Type 0} → Load A → (A → Load B) → Load B
refused e >>= k = refused e
loaded a >>= k = k a

abbrev pub require : {A : Type 0} → Bool → PlibError → Load A → Load A
require test e rest = if test then rest else refused e

abbrev pub plib_max : ℕ
plib_max = 128

abbrev pub sections_max : ℕ
sections_max = 16

abbrev pub triple_max : ℕ
triple_max = 127

-- 512 MiB and 64 MiB
abbrev pub code_max : ℕ
code_max = 536870912

abbrev pub interface_max : ℕ
interface_max = 67108864

-- "PRPLIB3\n"
abbrev pub magic : List ℕ
magic = 80 ∷ 82 ∷ 80 ∷ 76 ∷ 73 ∷ 66 ∷ 51 ∷ 10 ∷ []

-- read_u32_le and read_u64_le, of four and of eight bytes: the shifts and the ors are a sum.
unfoldable pub read_le : List ℕ → ℕ
read_le [] = 0
read_le (b ∷ bs) = b + 256 * read_le bs

-- write_u32_le and write_u64_le
unfoldable pub write_le : ℕ → ℕ → List ℕ
write_le zero value = []
write_le (suc n) value = value % 256 ∷ write_le n (value / 256)

-- strcmp, of texts
abbrev pub same_text : List ℕ → List ℕ → Bool
same_text [] [] = true
same_text (x ∷ xs) (y ∷ ys) = (x == y) && same_text xs ys
same_text xs ys = false

-- The text that bytes with a zero behind them are.
abbrev pub c_string : List ℕ → List ℕ
c_string bs = elim (find 0 bs) [ none ↦ bs | some n ↦ take n bs ]

-- fread at an offset
abbrev pub read_at : List ℕ → ℕ → ℕ → List ℕ
read_at file offset count = take count (drop offset file)

abbrev pub has_triple : List ℕ → List Section → Bool
has_triple t [] = false
has_triple t (s ∷ ss) = same_text s.triple t || has_triple t ss

abbrev pub section_at : ℕ → List ℕ → ℕ → ℕ → Section
section_at offset triple code_len verify_len = record {
  triple = triple;
  bitcode_offset = offset;
  bitcode_size = code_len;
  verify_bitcode_offset = offset + code_len;
  verify_bitcode_size = verify_len;
}

-- A length of code that is neither 0 nor too large
abbrev pub is_code_len : ℕ → Bool
is_code_len n = ltb 0 n && leb n code_max

-- plib_read_sections, from section `i` on with `n` to go: the sections, and where the last ends.
unfoldable pub read_sections : List ℕ → ℕ → ℕ → ℕ → List Section → Load (List Section × ℕ)
unfolding read_le find
read_sections file offset i zero got = loaded (got, offset)
read_sections file offset i (suc n) got =
    let header = read_at file offset 20 in
    let triple_len = read_le (take 4 header) in
    let code_len = read_le (take 8 (drop 4 header)) in
    let verify_len = read_le (take 8 (drop 12 header)) in
    let bytes = read_at file (offset + 20) triple_len in
    let triple = c_string bytes in
    let start = offset + 20 + triple_len in
    let rest =
      read_sections file (start + code_len + verify_len) (suc i) n
        (got ++ (section_at start triple code_len verify_len ∷ [])) in
    require (length header == 20) truncated_table (
      require
        (leb triple_len triple_max
          && (is_code_len code_len && (is_code_len verify_len && (length bytes == triple_len))))
        (invalid_section i) (require (not (has_triple triple got)) (two_sections triple) rest))

abbrev pub is_registered : List ℕ → Registry → Bool
is_registered name [] = false
is_registered name (p ∷ ps) = same_text p.name name || is_registered name ps

-- compiler_plib_module_registered
unfoldable pub plib_module_registered : Registry → List ℕ → Bool
plib_module_registered plibs name = is_registered name plibs

-- The end of compiler_plib_interface: a module is registered once.
abbrev pub register : Registry → Plib → List ℕ → Load (List ℕ × Registry)
register plibs plib interface =
    if is_registered plib.name plibs
    then loaded (interface, plibs)
    else require (ltb (length plibs) plib_max) too_many (loaded (interface, plibs ++ (plib ∷ [])))

-- The header of a file: the lengths of the name and of the interface, and the number of sections.
pub record Header : Type 0 where
  pub module_len : ℕ
  pub interface_len : ℕ
  pub section_count : ℕ

unfoldable pub read_header : List ℕ → Load Header
unfolding read_le
read_header file =
    let header = read_at file 0 24 in
    let h : Header = record {
      module_len = read_le (take 4 (drop 8 header));
      interface_len = read_le (take 8 (drop 12 header));
      section_count = read_le (take 4 (drop 20 header));
    } in
    require ((length header == 24) && same_text (take 8 header) magic) not_plib (
      require
        (ltb 0 h.module_len
          && (leb h.module_len 255
              && (leb h.interface_len interface_max
                  && (ltb 0 h.section_count && leb h.section_count sections_max))))
        invalid_header (loaded h))

-- The name, the interface and the sections behind a header.
unfoldable pub read_body : List ℕ → List ℕ → Header → Load (List ℕ × List ℕ × List Section)
unfolding read_sections find
read_body file expected h =
    let name = read_at file 24 h.module_len in
    let interface = read_at file (24 + h.module_len) h.interface_len in
    require (length name == h.module_len) truncated_name (
      require (same_text (c_string name) expected) (other_module (c_string name)) (
        require (length interface == h.interface_len) truncated_interface (
          read_sections file (24 + h.module_len + h.interface_len) 0 h.section_count [] >>= λ got.
          require (length file == got.1) wrong_length (loaded (c_string name, interface, got.0)))))

-- compiler_plib_interface: the interface, and the registry with the module.
unfoldable pub plib_interface :
    Registry → Option (List ℕ) → List ℕ → List ℕ → Load (List ℕ × Registry)
unfolding read_header read_body
plib_interface plibs none path expected = refused cannot_open
plib_interface plibs (some file) path expected = read_header file >>= λ h.
    read_body file expected h >>= λ body.
    register plibs (record { name = body.0; path = path; sections = body.2 }) body.1

-- plib_section_for_target, of the triple that is built for, the empty one for the host's
unfoldable pub section_for : List ℕ → List Section → Option Section
section_for triple [] = none
section_for triple (s ∷ ss) =
    let rest = section_for triple ss in if same_text s.triple triple then some s else rest

-- extract_plib_bitcode: what is copied out of the file, if all of it is there.
unfoldable pub extract : Bool → List ℕ → List ℕ → List Section → Option (List ℕ)
unfolding section_for
extract verify file triple sections = elim (section_for triple sections) [
  | none ↦ none
  | some s ↦
      let offset = if verify then s.verify_bitcode_offset else s.bitcode_offset in
      let size = if verify then s.verify_bitcode_size else s.bitcode_size in
      let code = read_at file offset size in if length code == size then some code else none
]

-- emit_stdlib_plib: the header and the one section's header, and the file it writes for a module,
-- from its interface and its two compilations.
unfoldable pub header_bytes : ℕ → ℕ → List ℕ
unfolding write_le
header_bytes module_len interface_len =
    magic ++ (write_le 4 module_len ++ (write_le 8 interface_len ++ write_le 4 1))

unfoldable pub section_bytes : ℕ → ℕ → List ℕ
unfolding write_le
section_bytes code_len verify_len = write_le 4 0 ++ (write_le 8 code_len ++ write_le 8 verify_len)

unfoldable pub emit : List ℕ → List ℕ → List ℕ → List ℕ → List ℕ
unfolding header_bytes section_bytes
emit logical interface code verify_code =
    header_bytes (length logical) (length interface)
    ++ (logical
        ++ (interface
            ++ (section_bytes (length code) (length verify_code) ++ (code ++ verify_code))))
