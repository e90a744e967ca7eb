-- ===== src/Plib/Laws.antt =====
-- What a compiled module that was written for a module gives when it is read.
use mathlib.Core.Path.{subst}
use prismio.Base.{
  append-nil, ℕ, ◌+◌, ◌<◌, ◌≤◌, ◌≡◌, refl, sym, ap, ap₂, ◌∙◌, true, false, ◌&&◌, none, some, List,
  [], ◌∷◌, ◌++◌, append_assoc, arith, ◌==◌, ltb, leb, lt→ltb, le→leb, if◌then◌else◌, length, take,
  drop, length-append,
}
use prismio.Base.Find.{find}
use prismio.Plib.{
  Section, Plib, Registry, Load, loaded, ◌>>=◌, require, read_le, write_le, same_text, c_string,
  read_at, section_at, is_code_len, read_sections, is_registered, register, Header, read_header,
  read_body, plib_interface, extract, header_bytes, section_bytes, emit, plib_max, code_max,
  interface_max, invalid_header, triple_max, invalid_section, truncated_table, truncated_name,
  other_module, truncated_interface, wrong_length,
}
use prismio.Plib.Bytes.{
  read_le-write_le, same_text_refl, read_at-append, header_bytes-parts, section_bytes-parts,
}

-- What emit_stdlib_plib is run on: a name that fits, an interface and two compilations that do.
pub record IsModule (logical interface code verify : List ℕ) : Type 0 where
  pub text : find 0 logical ≡ none
  pub named : 0 < length logical
  pub name_fits : length logical ≤ 255
  pub interface_fits : length interface ≤ interface_max
  pub has_code : 0 < length code
  pub code_fits : length code ≤ code_max
  pub has_verify : 0 < length verify
  pub verify_fits : length verify ≤ code_max

eqb_refl : (n : ℕ) → (n == n) ≡ true
eqb_refl n = ground arith

c_string_text : (bs : List ℕ) → find 0 bs ≡ none → c_string bs ≡ bs
unfolding find
c_string_text bs h = rw (h, c_string) refl

-- What read_header says of the three numbers it has read.
abbrev header_of : ℕ → ℕ → ℕ → Load Header
header_of m i n =
    require (ltb 0 m && (leb m 255 && (leb i interface_max && (ltb 0 n && leb n 16))))
      invalid_header (loaded (record { module_len = m; interface_len = i; section_count = n }))

header_of-fits :
    (m i : ℕ)
    → 0 < m
    → m ≤ 255
    → i ≤ interface_max
    → header_of m i 1 ≡ loaded (record { module_len = m; interface_len = i; section_count = 1 })
header_of-fits m i pos fits ifits =
    rw (lt→ltb 0 m pos, le→leb m 255 fits, le→leb i interface_max ifits) refl

-- The header of a file that starts with one.
read_header-header_bytes :
    (m i : ℕ) (rest : List ℕ)
    → 0 < m
    → m ≤ 255
    → i ≤ interface_max
    → read_header (header_bytes m i ++ rest)
      ≡ loaded (record { module_len = m; interface_len = i; section_count = 1 })
unfolding read_header header_bytes write_le
read_header-header_bytes m i rest pos fits ifits =
    let em = read_le-write_le 4 m (omega arith) in
    let ei = read_le-write_le 8 i (omega arith) in
    let read : read_header (header_bytes m i ++ rest)
        ≡ header_of (read_le (write_le 4 m)) (read_le (write_le 8 i)) (read_le (write_le 4 1)) =
      refl in
    read
    ∙ (ap (λ v. header_of v (read_le (write_le 8 i)) (read_le (write_le 4 1))) em
        ∙ (ap (λ v. header_of m v (read_le (write_le 4 1))) ei ∙ header_of-fits m i pos fits ifits))

-- What read_sections makes of the header of an only section, and of the three numbers in it.
module _ (file : List ℕ) (offset : ℕ) where
  abbrev only_section : ℕ → ℕ → ℕ → Load (List Section × ℕ)
  only_section t c v =
      let bytes = read_at file (offset + 20) t in
      require (leb t triple_max && (is_code_len c && (is_code_len v && (length bytes == t))))
        (invalid_section 0)
        (loaded (section_at (offset + 20 + t) (c_string bytes) c v ∷ [], offset + 20 + t + c + v))

  abbrev only_entry : List ℕ → Load (List Section × ℕ)
  only_entry header = require (length header == 20) truncated_table (
      only_section (read_le (take 4 header)) (read_le (take 8 (drop 4 header)))
        (read_le (take 8 (drop 12 header))))

  only_section-fits :
      (c v : ℕ)
      → 0 < c
      → c ≤ code_max
      → 0 < v
      → v ≤ code_max
      → only_section 0 c v ≡ loaded (section_at (offset + 20) [] c v ∷ [], offset + 20 + c + v)
  unfolding find
  only_section-fits c v cp cm vp vm =
      rw (lt→ltb 0 c cp, le→leb c code_max cm, lt→ltb 0 v vp, le→leb v code_max vm)
        (ap (λ o. loaded (section_at o [] c v ∷ [], o + c + v)) (omega arith))

  only_entry-section_bytes :
      (c v : ℕ)
      → 0 < c
      → c ≤ code_max
      → 0 < v
      → v ≤ code_max
      → only_entry (section_bytes c v)
        ≡ loaded (section_at (offset + 20) [] c v ∷ [], offset + 20 + c + v)
  unfolding section_bytes write_le read_le
  only_entry-section_bytes c v cp cm vp vm =
      let read : only_entry (section_bytes c v)
          ≡ only_section 0 (read_le (write_le 8 c)) (read_le (write_le 8 v)) =
        refl in
      read
      ∙ (ap₂ (λ x y. only_section 0 x y) (read_le-write_le 8 c (omega arith))
            (read_le-write_le 8 v (omega arith))
          ∙ only_section-fits c v cp cm vp vm)

  read_sections-only : read_sections file offset 0 1 [] ≡ only_entry (read_at file offset 20)
  unfolding read_sections
  read_sections-only = refl

-- The one section of a file, its triple the empty one.
read_sections-section_bytes :
    (pre code verify : List ℕ) (offset : ℕ)
    → offset ≡ length pre
    → 0 < length code
    → length code ≤ code_max
    → 0 < length verify
    → length verify ≤ code_max
    → read_sections
        (pre ++ (section_bytes (length code) (length verify) ++ (code ++ verify)))
        offset
        0
        1
        []
      ≡ loaded (
        section_at (offset + 20) [] (length code) (length verify) ∷ [],
        offset + 20 + length code + length verify,
      )
read_sections-section_bytes pre code verify offset at_pre cp cm vp vm =
    let header = section_bytes (length code) (length verify) in
    let file = pre ++ (header ++ (code ++ verify)) in
    read_sections-only file offset
    ∙ (ap (only_entry file offset) (
          read_at-append pre header (code ++ verify) offset 20 at_pre
            (sym (section_bytes-parts (length code) (length verify)).0))
        ∙ only_entry-section_bytes file offset (length code) (length verify) cp cm vp vm)

register-new :
    (plibs : Registry) (plib : Plib) (interface : List ℕ)
    → is_registered plib.name plibs ≡ false
    → length plibs < plib_max
    → register plibs plib interface ≡ loaded (interface, plibs ++ (plib ∷ []))
register-new plibs plib interface fresh room = rw (fresh, lt→ltb (length plibs) plib_max room) refl

-- The parts of what emit writes, after its header.
module _ (logical interface code verify : List ℕ) where
  abbrev table : List ℕ
  table = section_bytes (length code) (length verify) ++ (code ++ verify)

  abbrev start : ℕ
  start = 24 + length logical + length interface

  abbrev header : List ℕ
  header = header_bytes (length logical) (length interface)

  abbrev before : List ℕ
  before = (header ++ logical) ++ interface

  length-header : length header ≡ 24
  length-header = (header_bytes-parts (length logical) (length interface)).0

  length-before : length before ≡ start
  length-before = omega (
    arith,
    length-header,
    length-append header logical,
    length-append (header ++ logical) interface,
  )

  emit-before : emit logical interface code verify ≡ before ++ table
  unfolding emit
  emit-before =
      sym (append_assoc header logical (interface ++ table))
      ∙ sym (append_assoc (header ++ logical) interface table)

  length-emit :
      length (emit logical interface code verify) ≡ start + 20 + length code + length verify
  length-emit =
      ap length emit-before
      ∙ omega (
        arith,
        length-before,
        length-append before table,
        length-append code verify,
        length-append (section_bytes (length code) (length verify)) (code ++ verify),
        (section_bytes-parts (length code) (length verify)).0,
      )

  read_name : read_at (emit logical interface code verify) 24 (length logical) ≡ logical
  unfolding emit
  read_name =
      read_at-append header logical (interface ++ table) 24 (length logical) (sym length-header)
        refl

  read_interface :
      read_at (emit logical interface code verify) (24 + length logical) (length interface)
      ≡ interface
  unfolding emit
  read_interface =
      ap (λ file. read_at file (24 + length logical) (length interface))
        (sym (append_assoc header logical (interface ++ table)))
      ∙ read_at-append (header ++ logical) interface table (24 + length logical) (length interface)
          (omega (arith, length-header, length-append header logical)) refl

  -- What read_body makes of the three parts and of the file's size.
  abbrev body_of :
      List ℕ → List ℕ → Load (List Section × ℕ) → ℕ → Load (List ℕ × List ℕ × List Section)
  body_of name text sections size = require (length name == length logical) truncated_name (
      require (same_text (c_string name) logical) (other_module (c_string name)) (
        require (length text == length interface) truncated_interface (
          sections >>= λ got.
          require (size == got.1) wrong_length (loaded (c_string name, text, got.0)))))

  body_of-fits :
      (sections : List Section) (size : ℕ)
      → find 0 logical ≡ none
      → body_of logical interface (loaded (sections, size)) size
        ≡ loaded (logical, interface, sections)
  body_of-fits sections size text =
      rw
        (
          eqb_refl (length logical),
          eqb_refl (length interface),
          eqb_refl size,
          c_string_text logical text,
          same_text_refl logical,
        )
        refl

  -- The name, the interface and the section that read_body finds.
  read_body-emit :
      IsModule logical interface code verify
      → read_body (emit logical interface code verify) logical (record {
        module_len = length logical;
        interface_len = length interface;
        section_count = 1;
      })
        ≡ loaded (logical, interface, section_at (start + 20) [] (length code) (length verify) ∷ [])
  unfolding read_body
  read_body-emit m =
      let size = start + 20 + length code + length verify in
      let sections = section_at (start + 20) [] (length code) (length verify) ∷ [] in
      let file = emit logical interface code verify in
      let got : read_sections file start 0 1 [] ≡ loaded (sections, size) =
        ap (λ f. read_sections f start 0 1 []) emit-before
        ∙ read_sections-section_bytes before code verify start (sym length-before) m.has_code
            m.code_fits m.has_verify m.verify_fits in
      ap₂ (λ name text. body_of name text (read_sections file start 0 1 []) (length file)) read_name
        read_interface
      ∙ (ap₂ (λ found n. body_of logical interface found n) got length-emit
          ∙ body_of-fits sections size m.text)

  read_header-emit :
      IsModule logical interface code verify
      → read_header (emit logical interface code verify)
        ≡ loaded (record {
          module_len = length logical;
          interface_len = length interface;
          section_count = 1;
        })
  unfolding emit
  read_header-emit m =
      read_header-header_bytes (length logical) (length interface) (logical ++ (interface ++ table))
        m.named m.name_fits m.interface_fits

  registered_emit :
      (plibs : Registry) (path : List ℕ)
      → IsModule logical interface code verify
      → is_registered logical plibs ≡ false
      → length plibs < plib_max
      → plib_interface plibs (some (emit logical interface code verify)) path logical
        ≡ loaded (
          interface,
          plibs
              ++ (record {
                name = logical;
                path = path;
                sections = section_at (start + 20) [] (length code) (length verify) ∷ [];
              }
                  ∷ []),
        )
  unfolding plib_interface
  registered_emit plibs path m fresh room =
      let file = emit logical interface code verify in
      let h : Header = record {
        module_len = length logical;
        interface_len = length interface;
        section_count = 1;
      } in
      let plib : Plib = record {
        name = logical;
        path = path;
        sections = section_at (start + 20) [] (length code) (length verify) ∷ [];
      } in
      let of_body : Load (List ℕ × List ℕ × List Section) → Load (List ℕ × Registry) = λ l.
        l >>= λ body.
        register plibs (record { name = body.0; path = path; sections = body.2 }) body.1 in
      let header_read : read_header file ≡ loaded h = read_header-emit m in
      ap (λ l. l >>= λ k. of_body (read_body file logical k)) header_read
      ∙ (ap of_body (read_body-emit m) ∙ register-new plibs plib interface fresh room)

  -- The file before its two compilations.
  abbrev before_code : List ℕ
  before_code = before ++ section_bytes (length code) (length verify)

  length-before_code : length before_code ≡ start + 20
  length-before_code = omega (
    arith,
    length-before,
    length-append before (section_bytes (length code) (length verify)),
    (section_bytes-parts (length code) (length verify)).0,
  )

  emit-before_code : emit logical interface code verify ≡ before_code ++ (code ++ verify)
  emit-before_code =
      emit-before
      ∙ sym (append_assoc before (section_bytes (length code) (length verify)) (code ++ verify))

  read_code : read_at (emit logical interface code verify) (start + 20) (length code) ≡ code
  read_code =
      ap (λ f. read_at f (start + 20) (length code)) emit-before_code
      ∙ read_at-append before_code code verify (start + 20) (length code) (sym length-before_code)
          refl

  read_verify :
      read_at (emit logical interface code verify) (start + 20 + length code) (length verify)
      ≡ verify
  read_verify =
      ap (λ f. read_at f (start + 20 + length code) (length verify))
        (emit-before_code
          ∙ (sym (append_assoc before_code code verify)
              ∙ ap (λ v. (before_code ++ code) ++ v) (sym (append-nil verify))))
      ∙ read_at-append (before_code ++ code) verify [] (start + 20 + length code) (length verify)
          (omega (arith, length-before_code, length-append before_code code)) refl

  extract-emit :
      (extract false
          (emit logical interface code verify)
          []
          (section_at (start + 20) [] (length code) (length verify) ∷ [])
        ≡ some code)
      × (extract true
            (emit logical interface code verify)
            []
            (section_at (start + 20) [] (length code) (length verify) ∷ [])
          ≡ some verify)
  unfolding extract
  extract-emit =
      let file = emit logical interface code verify in
      (
        picked code (read_at file (start + 20) (length code)) read_code,
        picked verify (read_at file (start + 20 + length code) (length verify)) read_verify,
      )
    where
      picked :
          (want got : List ℕ)
          → got ≡ want
          → (if length got == length want then some got else none) ≡ some want
      picked want got e =
          subst (λ g. (if length g == length want then some g else none) ≡ some want) (sym e)
            (rw (eqb_refl (length want)) refl)

-- A module that is written, its name a text of 1 to 255 bytes and its parts within their bounds, is
-- read back, if its name is not registered and there is room: its interface is the interface given,
-- the registry gets its name, its path and one section, for the host, and the code that is copied
-- out of that section, plain and under --verify, is the code given.
pub plib_interface-emit :
    (plibs : Registry) (logical interface code verify path : List ℕ)
    → IsModule logical interface code verify
    → is_registered logical plibs ≡ false
    → length plibs < plib_max
    → (let file = emit logical interface code verify in
        let at_code = 24 + length logical + length interface + 20 in
        let sections = section_at at_code [] (length code) (length verify) ∷ [] in
        let plib : Plib = record { name = logical; path = path; sections = sections } in
        (plib_interface plibs (some file) path logical ≡ loaded (interface, plibs ++ (plib ∷ [])))
        × (extract false file [] sections ≡ some code)
        × (extract true file [] sections ≡ some verify))
plib_interface-emit plibs logical interface code verify path m fresh room =
    let codes = extract-emit logical interface code verify in
    (registered_emit logical interface code verify plibs path m fresh room, codes.0, codes.1)
