-- ===== src/Names/Variable.antt =====
-- build_support/cpplint.py: the names that GetHeaderGuardCPPVariable gives.
use concurrency_tcp_server.Base.{
  ℕ, ◌≡◌, refl, Bool, true, ◌||◌, Option, none, some, [], ◌∷◌, ◌++◌, map, Text, all, arith,
  is_upper, is_digit, ◌==◌, codes, is_some,
}
use concurrency_tcp_server.Names.{FileSystem, repository_name}
use concurrency_tcp_server.Names.Guard.{
  guard_char, original_name, fixup_path_from_root, get_header_guard_cpp_variable,
}
use concurrency_tcp_server.Names.Returns.{NoneAtTop, repository_name-returns}

-- [A-Z0-9_]
unfoldable pub is_variable_char : ℕ → Bool
unfolding is_upper is_digit
is_variable_char c = is_upper c || is_digit c || c == b'_'

guard_char-is_variable : (c : ℕ) → is_variable_char (guard_char c) ≡ true
unfolding guard_char is_variable_char is_upper is_digit
guard_char-is_variable c = ground arith

guard-is_variable : (path : Text) → all is_variable_char (map guard_char path ++ codes "_") ≡ true
guard-is_variable [] = unfold is_variable_char in refl
guard-is_variable (c ∷ path) = ground (arith, guard_char-is_variable c, guard-is_variable path)

-- GetHeaderGuardCPPVariable
pub get_header_guard_cpp_variable-variable :
    (fs : FileSystem) (repository root filename : Text)
    → NoneAtTop fs
    → (v : Text) × (get_header_guard_cpp_variable fs repository root filename ≡ some v)
      × (all is_variable_char v ≡ true)
unfolding get_header_guard_cpp_variable
get_header_guard_cpp_variable-variable fs repository root filename free =
    go (repository_name fs repository (original_name filename))
      (repository_name-returns fs repository (original_name filename) free)
  where
    go :
        (name : Option Text)
        → is_some name ≡ true
        → (v : Text) × (◌≡◌ {A = Option Text}
            (elim name [
              | none ↦ none
              | some n ↦ some (
                  map guard_char (fixup_path_from_root fs root (original_name filename) n)
                  ++ codes "_")
            ])
            (some v))
          × (all is_variable_char v ≡ true)
    go none h = ground (arith, h)
    go (some n) h =
        let path = fixup_path_from_root fs root (original_name filename) n in
        (map guard_char path ++ codes "_", refl, guard-is_variable path)
