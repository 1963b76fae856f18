-- ===== src/Tests/Speech.antt =====
-- Runs of the theorems on the phrases for the speech engine.
use web3_real_estate.Base.{◌≡◌, some, List, [], ◌∷◌, ◌++◌, arith}
use web3_real_estate.Base.Text.{Text}
use web3_real_estate.Speech.{SmartChunkBuffer, speak}
use web3_real_estate.Speech.Letters.{letters, all_letters}
use web3_real_estate.Speech.Whole.{speak_whole}

-- A buffer with short limits
abbrev buffer : SmartChunkBuffer
buffer = record { min_chars = 3; max_chars = 6; buf = [] }

-- "ab, cd" and "e. f"
abbrev tokens : List Text
tokens = (97 ∷ 98 ∷ 44 ∷ 32 ∷ 99 ∷ 100 ∷ []) ∷ (101 ∷ 46 ∷ 32 ∷ 102 ∷ []) ∷ []

speak_whole_example :
    (phrases : List Text) × (speak tokens buffer ≡ some phrases)
    × (all_letters phrases ≡ letters [] ++ all_letters tokens)
speak_whole_example = speak_whole tokens buffer (omega arith) (omega arith)
