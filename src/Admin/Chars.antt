-- ===== src/Admin/Chars.antt =====
-- What `_tokenize_sql` of src/azure_sql_mcp/admin_policy.py asks of a character.
-- Python's `str` methods read the Unicode tables, which are a parameter here; on ASCII they are
-- what Python's documentation says.
use azure_sql_mcp.Shared.{
  ℕ, ◌-◌, ◌<◌, ◌≡◌, refl, Bool, ◌&&◌, ◌||◌, [], ◌∷◌, ◌++◌, leb, if◌then◌else◌,
}
use azure_sql_mcp.Shared.Text.{Text}

abbrev pub ascii_space : ℕ → Bool
ascii_space c = (leb 9 c && leb c 13) || (leb 28 c && leb c 32)

abbrev pub ascii_digit : ℕ → Bool
ascii_digit c = leb b'0' c && leb c b'9'

abbrev pub ascii_lower : ℕ → Bool
ascii_lower c = leb b'a' c && leb c b'z'

abbrev pub ascii_alpha : ℕ → Bool
ascii_alpha c = (leb b'A' c && leb c b'Z') || ascii_lower c

abbrev pub ascii_upper : ℕ → ℕ
ascii_upper c = if ascii_lower c then c - 32 else c

-- `str.isspace`, `isdigit`, `isalpha`, `isalnum` on one character, and `upper`, which may give
-- several.
pub record CharTable : Type 0 where
  pub is_space : ℕ → Bool
  pub is_digit : ℕ → Bool
  pub is_alpha : ℕ → Bool
  pub is_alnum : ℕ → Bool
  pub upper_char : ℕ → Text
  pub space_ascii : (c : ℕ) → c < 128 → is_space c ≡ ascii_space c
  pub digit_ascii : (c : ℕ) → c < 128 → is_digit c ≡ ascii_digit c
  pub alpha_ascii : (c : ℕ) → c < 128 → is_alpha c ≡ ascii_alpha c
  pub alnum_ascii : (c : ℕ) → c < 128 → is_alnum c ≡ (ascii_alpha c || ascii_digit c)
  pub upper_ascii : (c : ℕ) → c < 128 → upper_char c ≡ ascii_upper c ∷ []

module _ ⦃chars : CharTable⦄ where
  -- s.upper()
  unfoldable pub upper : Text → Text
  upper [] = []
  upper (c ∷ s) = chars.upper_char c ++ upper s

-- The table that knows no character past ASCII.
abbrev pub ascii_table : CharTable
ascii_table = record {
  is_space = ascii_space;
  is_digit = ascii_digit;
  is_alpha = ascii_alpha;
  is_alnum = λ c. ascii_alpha c || ascii_digit c;
  upper_char = λ c. ascii_upper c ∷ [];
  space_ascii = λ c h. refl;
  digit_ascii = λ c h. refl;
  alpha_ascii = λ c h. refl;
  alnum_ascii = λ c h. refl;
  upper_ascii = λ c h. refl;
}
