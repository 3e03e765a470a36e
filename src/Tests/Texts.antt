-- ===== src/Tests/Texts.antt =====
-- The classification of texts, with the Unicode tables cut down to what the examples hold.
use codex_runner.Prelude.{
  ℕ, ◌+◌, ◌≡◌, refl, true, false, ◌&&◌, [], ◌∷◌, ◌++◌, some, Text, text, text_eq, map, ltb, leb,
  ◌==◌, if◌then◌else◌, get_elem?,
}
use codex_runner.Supervisor.Text.Vocabulary.{privilege, deletion, vocabulary}
use codex_runner.Supervisor.Text.Words.{Unicode, normalize_text, fields, open_fields, has_japanese}
use codex_runner.Supervisor.Text.Policy.{
  classify_runes, is_forbidden, valid_runes, decode_runes, meaningful,
}
use codex_runner.Supervisor.Text.Policy.Forbidden.{is_forbidden-occurrence}

abbrev lower : ℕ → ℕ
lower r = if leb b'A' r && leb r b'Z' then r + 32 else r

abbrev latin : Unicode
latin = record {
  is_mark = λ r. false;
  is_format = λ r. r == 0x200b;
  is_control = λ r. ltb r 32;
  is_space = λ r. r == 32;
  nfkc = λ s. s;
  to_lower = map lower;
}

abbrev request : Text
request = text "Run SUDO now, and rm -rf x"

request-meaningful : meaningful latin (normalize_text latin request) ≡ true
unfolding meaningful normalize_text
request-meaningful = refl

request-categories : (classify_runes latin request).categories ≡ deletion ∷ privilege ∷ []
unfolding classify_runes
request-categories = refl

request-runes : valid_runes (decode_runes 0 request) ≡ some request
unfolding valid_runes decode_runes
request-runes = refl

request-normalized :
    normalize_text latin request ≡ text "run " ++ (text "sudo" ++ text " now, and rm -rf x")
unfolding normalize_text
request-normalized = refl

sudo-entry : get_elem? vocabulary 40 ≡ some (record { category = privilege; word = text "sudo" })
sudo-entry = refl

sudo-normalized : normalize_text latin (text "sudo") ≡ text "sudo"
unfolding normalize_text
sudo-normalized = refl

sudo-fields : fields latin.is_space (text "sudo") ≡ text "sudo" ∷ []
unfolding open_fields
sudo-fields = refl

sudo-plain : text_eq (text "sudo") (text "+refspec") ≡ false
unfolding text_eq
sudo-plain = refl

sudo-ascii : has_japanese (text "sudo") ≡ false
unfolding has_japanese
sudo-ascii = refl

is_forbidden-occurrence_example : is_forbidden latin request ≡ true
is_forbidden-occurrence_example =
    is_forbidden-occurrence latin request request 40
      (record { category = privilege; word = text "sudo" }) (text "sudo") (text "run ")
      (text " now, and rm -rf x") request-runes request-normalized sudo-entry sudo-normalized
      sudo-fields sudo-plain sudo-ascii refl refl
