-- ===== src/Labels.antt =====
-- Display names of addresses, python/wake_sol/_labels.py. An address is its base58 text.
pub mod Resolve
use wake_sol.Prelude.{
  ℕ, ◌-◌, String, Bool, ◌||◌, Option, none, some, List, [], ◌∷◌, ◌++◌, leb, if◌then◌else◌, length,
  take, drop,
}
use wake_sol.Prelude.Assoc.{by_name, insert}
use wake_sol.Builder.Names.{codes}

-- `WELL_KNOWN`
abbrev pub well_known : List (String × String)
well_known =
    ("11111111111111111111111111111111", "System Program")
    ∷ ("TokenkegQfeZyiNwAJbNbGKPFXCWuBvf9Ss623VQ5DA", "Token Program")
    ∷ ("TokenzQdBNbLqP5VEhdkAS6EPFLC1PHnBqCXEpPxuEb", "Token-2022 Program")
    ∷ ("ATokenGPvbdGVxr1b2hvZbsiqW5xWH25efTNsLJA8knL", "Associated Token Account Program")
    ∷ ("Memo1UhkJRfHyvLMcVucJwxXeuD728EqVDDwQDxFMNo", "Memo Program (v1)")
    ∷ ("MemoSq4gqABAXKb96qnH8TysNcWxMyWCqXgDLGmfcHr", "Memo Program")
    ∷ ("ComputeBudget111111111111111111111111111111", "Compute Budget Program")
    ∷ ("Stake11111111111111111111111111111111111111", "Stake Program")
    ∷ ("Vote111111111111111111111111111111111111111", "Vote Program")
    ∷ ("Ed25519SigVerify111111111111111111111111111", "Ed25519 Program")
    ∷ ("KeccakSecp256k11111111111111111111111111111", "Secp256k1 Program")
    ∷ ("Secp256r1SigVerify1111111111111111111111111", "Secp256r1 Program")
    ∷ ("SysvarRent111111111111111111111111111111111", "Sysvar: Rent")
    ∷ ("SysvarC1ock11111111111111111111111111111111", "Sysvar: Clock")
    ∷ ("SysvarRecentB1ockHashes11111111111111111111", "Sysvar: RecentBlockhashes")
    ∷ ("Sysvar1nstructions1111111111111111111111111", "Sysvar: Instructions")
    ∷ ("SysvarStakeHistory1111111111111111111111111", "Sysvar: StakeHistory")
    ∷ ("SysvarEpochSchedu1e111111111111111111111111", "Sysvar: EpochSchedule")
    ∷ ("SysvarS1otHashes111111111111111111111111111", "Sysvar: SlotHashes")
    ∷ ("SysvarRewards111111111111111111111111111111", "Sysvar: Rewards")
    ∷ []

-- The module's globals `_LABELS` and `_FULL_ADDRESSES`.
pub record Labels : Type 0 where
  pub labels : List (String × String)
  pub full_addresses : Bool

unfoldable pub set_full_addresses : Bool → Labels → Labels
set_full_addresses value s = record s { full_addresses = value }

unfoldable pub set_label : String → String → Labels → Labels
set_label key name s = record s { labels = insert key name s.labels }

unfoldable pub get_label : String → Labels → Option String
get_label key s = by_name key s.labels

unfoldable pub clear_labels : Labels → Labels
clear_labels s = record s { labels = [] }

unfoldable pub or_else : Option String → Option String → Option String
or_else (some a) b = some a
or_else none b = b

-- No well-known name is empty, so `or` moves on only from `None`.
unfoldable pub program_name : String → Labels → Option String
unfolding or_else
program_name key s = or_else (by_name key well_known) (by_name key s.labels)

abbrev pub ellipsis : List ℕ
ellipsis = 0x2026 ∷ []

-- `f"{s[:4]}…{s[-4:]}"` of a text longer than 9.
unfoldable pub truncated : List ℕ → List ℕ
truncated s = take 4 s ++ (ellipsis ++ drop (length s - 4) s)

unfoldable pub shown : Option String → Option String → Bool → List ℕ → List ℕ
shown (some known) label full s = codes known
shown none (some label) full s = codes label
shown none none full s = if full || leb (length s) 9 then s else truncated s

unfoldable pub resolve_label : String → Labels → List ℕ
unfolding shown
resolve_label key s =
    shown (by_name key well_known) (by_name key s.labels) s.full_addresses (codes key)
