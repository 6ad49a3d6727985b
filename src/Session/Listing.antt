-- ===== src/Session/Listing.antt =====
-- crates/session-core/src/lib.rs: the methods of `ShellManager` that only read: `shell_info`,
-- `list_shells`, `history` and `history_bounds`.
use holdfast.Base.{leb, if◌then◌else◌, length, Result, ok, err, ℕ, none, some, List, [], ◌∷◌}
use holdfast.Base.Map
use holdfast.Base.Map.{Map, bytes_key}
use holdfast.Terminal.History.{HistoryRange}
use holdfast.Session.Types.{
  ShellId, SessionError, TerminalModel, ShellEntry, ShellManager, ShellInfo, shell_not_found,
}

unfoldable pub info_of : {S : Type 0} → ShellEntry S → ShellInfo
info_of entry = record {
  shell_id = entry.id;
  state = entry.runtime.state;
  exit = entry.runtime.exit;
  created_at_ms = entry.created_at_ms;
  last_attached_at_ms = entry.runtime.last_attached_at_ms;
  attachment_count = length entry.runtime.attachments;
  owner = entry.owner;
  account = entry.account;
}

unfoldable pub shell_info : {S : Type 0} → ShellManager S → ShellId → Result ShellInfo SessionError
shell_info m id = elim (Map.get m.shells id) [
  | none ↦ err shell_not_found
  | some entry ↦ ok (info_of entry)
]

-- `sort_by_key(|i| i.created_at_ms)`, which is stable.
pub insert_by_age : ShellInfo → List ShellInfo → List ShellInfo
insert_by_age i [] = i ∷ []
insert_by_age i (j ∷ rest) =
    if leb i.created_at_ms j.created_at_ms then i ∷ j ∷ rest else j ∷ insert_by_age i rest

pub sorted_infos : {S : Type 0} → Map ShellId (ShellEntry S) → List ShellInfo
sorted_infos [] = []
sorted_infos ((id, entry) ∷ rest) = insert_by_age (info_of entry) (sorted_infos rest)

pub list_shells : {S : Type 0} → ShellManager S → List ShellInfo
list_shells m = sorted_infos m.shells

pub history :
    (tm : TerminalModel)
    → ShellManager tm.Screen
    → ShellId
    → ℕ
    → ℕ
    → ℕ
    → Result HistoryRange SessionError
history tm m id before_line_id maximum_lines maximum_bytes = elim (Map.get m.shells id) [
  | none ↦ err shell_not_found
  | some entry ↦
      ok (tm.history_range entry.runtime.model before_line_id maximum_lines maximum_bytes)
]

pub history_bounds :
    (tm : TerminalModel) → ShellManager tm.Screen → ShellId → Result (ℕ × ℕ) SessionError
history_bounds tm m id = elim (Map.get m.shells id) [
  | none ↦ err shell_not_found
  | some entry ↦ ok (tm.oldest_line_id entry.runtime.model, tm.newest_line_id entry.runtime.model)
]
