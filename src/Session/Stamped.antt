-- ===== src/Session/Stamped.antt =====
-- src/session.rs: the fields of an entry that `append` has stamped, and `validate` after it.
use danso.Prelude.{◌≡◌, refl, ◌∙◌, inl, false, some, List, [], ◌∷◌, ◌++◌, String, str_eq}
use danso.Prelude.Result.{ok}
use danso.Json.{null, str, obj, Fields, get, index, as_str, is_str, set_field, contains}
use danso.Json.Laws.{get-set_same, get-set_other}
use danso.Session.Journal.{Session, stamp, last_id, is_taken, validate_entry, validate_entries}
use danso.LongTask.Bindings.{is_task_entry}
use danso.Session.Append.{
  IsParent, check_parent-IsParent, last_id-IsParent, validate_entries-append, validate_entries-Free,
  index-insert_same, index-insert_other,
}

module _ (s : Session) (fs : Fields) (id timestamp : String) where
  pub stamp-other :
      (key : String)
      → str_eq "id" key ≡ false
      → str_eq "parentId" key ≡ false
      → str_eq "timestamp" key ≡ false
      → index (stamp s (obj fs) id timestamp) key ≡ index (obj fs) key
  unfolding stamp
  stamp-other key a b c =
      index-insert_other
        (set_field (set_field fs "id" (str id)) "parentId" (last_id null s.entries)) "timestamp" key
        _ c
      ∙ index-insert_other (set_field fs "id" (str id)) "parentId" key _ b
      ∙ index-insert_other fs "id" key _ a

  pub stamp-id : index (stamp s (obj fs) id timestamp) "id" ≡ str id
  unfolding stamp
  stamp-id =
      index-insert_other
        (set_field (set_field fs "id" (str id)) "parentId" (last_id null s.entries)) "timestamp"
        "id" _ refl
      ∙ index-insert_other (set_field fs "id" (str id)) "parentId" "id" _ refl
      ∙ index-insert_same fs "id" _

  get-stamp_parent : get (stamp s (obj fs) id timestamp) "parentId" ≡ some (last_id null s.entries)
  unfolding stamp get
  get-stamp_parent =
      get-set_other (set_field (set_field fs "id" (str id)) "parentId" (last_id null s.entries))
        "timestamp" "parentId" _ refl
      ∙ get-set_same (set_field fs "id" (str id)) "parentId" _

  pub stamp-parent : index (stamp s (obj fs) id timestamp) "parentId" ≡ last_id null s.entries
  unfolding index
  stamp-parent = rw get-stamp_parent refl

  pub stamp-is_task : is_task_entry (stamp s (obj fs) id timestamp) ≡ is_task_entry (obj fs)
  stamp-is_task =
      rw (stamp-other "type" refl refl refl, stamp-other "customType" refl refl refl) refl

  -- The stamped entry continues a valid journal.
  pub stamp-Validates :
      (ids : List String)
      → validate_entries [] s.entries ≡ ok ids
      → is_taken s.entries id ≡ false
      → is_str (index (obj fs) "type") "session" ≡ false
      → validate_entries [] (s.entries ++ stamp s (obj fs) id timestamp ∷ []) ≡ ok (id ∷ ids)
  unfolding validate_entry IsParent contains as_str
  stamp-Validates ids valid free kind =
      let unseen : contains ids id ≡ false =
        validate_entries-Free [] s.entries ids id valid refl free in
      let parent : IsParent ids (last_id null s.entries) =
        last_id-IsParent [] s.entries null ids valid (inl refl) in
      rw
        (
          validate_entries-append [] s.entries (stamp s (obj fs) id timestamp),
          valid,
          stamp-id,
          stamp-parent,
          get-stamp_parent,
          stamp-other "type" refl refl refl,
          kind,
          unseen,
          check_parent-IsParent ids _ parent,
        )
        refl
