-- ===== src/Client/Journal.antt =====
-- crates/client/src/journal.rs: commands held for replay onto a replacement transport.
-- The journal looks at a message only to find the buffer of an `Input`: `Message` is the type of the
-- messages and `input_bytes` that buffer, if the message is an `Input`.
pub mod Exact
mod Tests
use braid.Prelude.{
  ℕ, Bool, Option, none, some, List, [], ◌∷◌, ◌++◌, map, leb, ◌==◌, if◌then◌else◌, length, take,
  drop,
}

-- `spare` after a message is dropped.
abbrev pub keep_spare : Option (List ℕ) → Option (List ℕ) → Option (List ℕ)
keep_spare spare none = spare
keep_spare spare (some bytes) = some bytes

module _ (Message : Type 0) where
  pub record CommandJournal : Type 0 where
    pub capacity : ℕ
    pub entries : List (ℕ × Message)

  -- `Result<(), JournalError>`.
  pub data Pushed : Type 0 where
    held full : Pushed

  pub fresh : ℕ → CommandJournal
  fresh capacity = record { capacity = capacity; entries = [] }

  pub is_full : CommandJournal → Bool
  is_full j = length j.entries == j.capacity

  pub is_empty : CommandJournal → Bool
  is_empty j = length j.entries == 0

  pub push : CommandJournal → ℕ → Message → CommandJournal × Pushed
  push j sequence message =
      if length j.entries == j.capacity
      then (j, full)
      else (record j { entries = j.entries ++ (sequence, message) ∷ [] }, held)

  pub all : CommandJournal → List Message
  all j = map (λ e. e.1) j.entries

  pub oldest : CommandJournal → ℕ → List (ℕ × Message)
  oldest j most = take most j.entries

  pub displace_oldest : CommandJournal → CommandJournal
  displace_oldest j = record j { entries = drop 1 j.entries }

  module _ (input_bytes : Message → Option (List ℕ)) where
    -- The loop of `acknowledge`: the entries that stay, and the spare buffer.
    pub retire : List (ℕ × Message) → ℕ → Option (List ℕ) → List (ℕ × Message) × Option (List ℕ)
    retire [] highest spare = ([], spare)
    retire ((sequence, message) ∷ rest) highest spare =
        let later = retire rest highest (keep_spare spare (input_bytes message)) in
        if leb sequence highest then later else ((sequence, message) ∷ rest, spare)

    pub acknowledge : CommandJournal → ℕ → CommandJournal × Option (List ℕ)
    acknowledge j highest =
        let (entries', spare) = retire j.entries highest none in
        (record j { entries = entries' }, spare)
