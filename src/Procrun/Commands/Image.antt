-- ===== src/Procrun/Commands/Image.antt =====
-- The command line that `docmdInstallService` stores for the service, and the command that the service
-- runner reads from it when the service starts.
pub mod Stored
use boundary_event_sdk.Prelude.{
  ℕ, zero, suc, ◌-◌, ◌<◌, ◌≤◌, ◌≡◌, ◌≢◌, refl, Bool, false, ◌||◌, Option, none, some, List, [], ◌∷◌,
  ◌++◌, Bytes, codes, length, take, drop, ◌==◌, if◌then◌else◌, arith, str_eq,
}
use boundary_event_sdk.Procrun.Cmdline.{
  slash_command, command_index, command_name, named_service, skip_slashes,
}
use boundary_event_sdk.Procrun.Cmdline.Options.{ok}
use boundary_event_sdk.Text.{strchr}

abbrev pub huge_length : ℕ
huge_length = 8192

abbrev pub buffer_length : ℕ
buffer_length = 512

-- `lstrlcpyW(dst, siz, src)` into `dst`, and `lstrlcatW(dst, siz, src)` of a `dst` shorter than `siz`
unfoldable pub strlcpy : (siz : ℕ) → Bytes → Bytes
strlcpy siz s = take (siz - 1) s

unfoldable pub strlcat : (dst : Bytes) (siz : ℕ) → Bytes → Bytes
strlcat dst siz s = take (siz - 1) (dst ++ s)

unfoldable pub has_space : Bytes → Bool
has_space [] = false
has_space (c ∷ s) = c == b' ' || has_space s

-- `apxStrQuoteInplaceW`
unfoldable pub quote_inplace : Bytes → Bytes
unfolding has_space
quote_inplace s = if has_space s then b'"' ∷ (s ++ (b'"' ∷ [])) else s

abbrev is_valid_string : Option Bytes → Option Bytes
is_valid_string none = none
is_valid_string (some []) = none
is_valid_string (some (c ∷ s)) = some (c ∷ s)

-- `szName`, before it is quoted
unfoldable pub run_argument : (application : Bytes) → Bytes
unfolding strlcpy strlcat
run_argument application =
    strlcat (strlcpy buffer_length (codes "//RS//")) buffer_length application

unfoldable pub image_path : (install : Option Bytes) (exe_path executable : Bytes) → Bytes
unfolding strlcpy strlcat
image_path install exe_path executable = elim (is_valid_string install) [
  | some given ↦ strlcpy huge_length given
  | none ↦
      strlcat
        (strlcat (strlcat (strlcpy huge_length exe_path) huge_length (codes "\\")) huge_length
          executable)
        huge_length (codes ".exe")
]

-- `szImage`
unfoldable pub service_image :
    (install : Option Bytes) (exe_path executable application : Bytes) → Bytes
unfolding image_path run_argument quote_inplace strlcat
service_image install exe_path executable application =
    strlcat
      (strlcat (quote_inplace (image_path install exe_path executable)) huge_length (codes " "))
      huge_length (quote_inplace (run_argument application))

-- The table of the `//` commands.
abbrev pub commands : List Bytes
commands =
    codes "TS"
    ∷ codes "RS"
    ∷ codes "ES"
    ∷ codes "SS"
    ∷ codes "US"
    ∷ codes "IS"
    ∷ codes "DS"
    ∷ codes "?"
    ∷ codes "VS"
    ∷ []

pub take_short : (n : ℕ) (s : Bytes) → length s ≤ n → take n s ≡ s
take_short zero [] h = refl
take_short zero (x ∷ s) h = absurd (omega arith)
take_short (suc n) [] h = refl
take_short (suc n) (x ∷ s) h = rw (take_short n s (omega arith))

-- The argument for a service, before it is quoted, is read by the program that is started with it as
-- the command to run the service of that name. The name is not empty, does not start with a slash, and
-- has at most 505 units.
pub slash_command-run_argument :
    (c : ℕ) (name executable : Bytes) (args : List Bytes)
    → c ≢ b'/'
    → length name < 505
    → slash_command commands executable (drop 2 (run_argument (c ∷ name))) args
      ≡ ok (record { index = 2; service = c ∷ name; args = args })
unfolding slash_command run_argument strlcpy strlcat command_index command_name named_service
    skip_slashes strchr str_eq
slash_command-run_argument c name executable args slash short =
    ground (arith, take_short 504 name (omega arith))
