-- ===== src/Plib/Tests.antt =====
-- Compiled modules at concrete files.
use prismio.Base.{ℕ, ◌≡◌, refl, true, false, some, List, [], ◌∷◌, ◌++◌, arith, take}
use prismio.Base.Find.{find}
use prismio.Plib.{
  Section, Plib, Registry, Load, loaded, refused, plib_interface, section_at, extract, emit,
  plib_module_registered, wrong_length, other_module,
}
use prismio.Plib.Laws.{IsModule, plib_interface-emit}

-- "io", with an interface of one byte and compilations of two and of three
abbrev io : List ℕ
io = 105 ∷ 111 ∷ []

abbrev interface_bytes : List ℕ
interface_bytes = 9 ∷ []

abbrev code_bytes : List ℕ
code_bytes = 66 ∷ 67 ∷ []

abbrev verify_bytes : List ℕ
verify_bytes = 68 ∷ 69 ∷ 70 ∷ []

abbrev file : List ℕ
file = emit io interface_bytes code_bytes verify_bytes

abbrev lib_path : List ℕ
lib_path = 108 ∷ []

abbrev section : Section
section = section_at 47 [] 2 3

abbrev io_plib : Plib
io_plib = record { name = io; path = lib_path; sections = section ∷ [] }

io-IsModule : IsModule io interface_bytes code_bytes verify_bytes
unfolding find
io-IsModule = record {
  text = refl;
  named = omega arith;
  name_fits = omega arith;
  interface_fits = omega arith;
  has_code = omega arith;
  code_fits = omega arith;
  has_verify = omega arith;
  verify_fits = omega arith;
}

io_registered : Load (List ℕ × Registry)
io_registered = loaded (interface_bytes, io_plib ∷ [])

truncated : plib_interface [] (some (take 51 file)) lib_path io ≡ refused wrong_length
unfolding plib_interface emit
truncated = refl

trailing : plib_interface [] (some (file ++ (0 ∷ []))) lib_path io ≡ refused wrong_length
unfolding plib_interface emit
trailing = refl

misnamed : plib_interface [] (some file) lib_path (105 ∷ []) ≡ refused (other_module io)
unfolding plib_interface emit
misnamed = refl

registered_once :
    plib_interface (io_plib ∷ []) (some file) lib_path io ≡ loaded (interface_bytes, io_plib ∷ [])
unfolding plib_interface emit
registered_once = refl

is_registered_now : plib_module_registered (io_plib ∷ []) io ≡ true
unfolding plib_module_registered
is_registered_now = refl

plib_interface-emit_example :
    (plib_interface [] (some file) lib_path io ≡ loaded (interface_bytes, io_plib ∷ []))
    × (extract false file [] (section ∷ []) ≡ some code_bytes)
    × (extract true file [] (section ∷ []) ≡ some verify_bytes)
plib_interface-emit_example =
    plib_interface-emit [] io interface_bytes code_bytes verify_bytes lib_path io-IsModule refl
      (omega arith)
