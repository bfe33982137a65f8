-- ===== src/Info.antt =====
-- src/callbacks_info.c: the text of the label that shows the version of the microcontroller.
-- Characters are their codes.
pub mod Text
use ultramat.Base.{ℕ, ◌+◌, ◌-◌, ◌/◌, ◌%◌, List, [], ◌∷◌, ◌++◌, ltb, if◌then◌else◌, take}
use ultramat.Proto.{McVersion}

-- `%d` of a uint8_t, and so of at most three digits.
decimal : ℕ → List ℕ
decimal n =
    if ltb n 10
    then (48 + n) ∷ []
    else (if ltb n 100
        then (48 + n / 10) ∷ (48 + n % 10) ∷ []
        else (48 + n / 100) ∷ (48 + n / 10 % 10) ∷ (48 + n % 10) ∷ [])

-- The format "v%d.%d.%d".
version_format : McVersion → List ℕ
unfolding decimal
version_format v = (118 ∷ decimal v.major) ++ ((46 ∷ decimal v.minor) ++ (46 ∷ decimal v.bugfix))

-- `sizeof(versionBuffer)`
abbrev pub version_buffer_size : ℕ
version_buffer_size = 14

-- `cb_info_set_mc_version`: `snprintf` cuts the text so that a null fits behind it.
unfoldable pub info_set_mc_version : McVersion → List ℕ
unfolding version_format
info_set_mc_version v = take (version_buffer_size - 1) (version_format v)
