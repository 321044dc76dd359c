-- ===== src/Tests/MemoryBear.antt =====
-- A Bear that is the list of its notes, and the laws of it.
use bear_sync.Prelude.{
  String, Bool, true, false, some, List, [], ◌∷◌, ◌++◌, ◌==◌, ◌≡◌, refl, sym, ap, ◌∙◌, inl, inr,
  arith, eq_iff, nat_eq, str_eq_self, str_eq_sym, select, select_all, select_sound, update, any,
  Bool-cases, if◌then◌else◌,
}
use bear_sync.Bridge.Bear.{Problem, Fallible, fails, gives, Done, NoteBasicInfo, Bear}
use bear_sync.Bridge.Redo.{Lands, FindsAsked}
use bear_sync.Bridge.Again.{IsLawful}
use bear_sync.Bridge.Copies.{CreateKeeps}

abbrev pub Notes : Type 0
Notes = List NoteBasicInfo

abbrev pub by_uuid : String → NoteBasicInfo → Bool
by_uuid u n = n.uuid == u

abbrev pub no_note : Problem
no_note = record { is_bear = true; msg = "note not found" }

-- A write of a note that is there.
abbrev pub write : (NoteBasicInfo → NoteBasicInfo) → Notes → String → Notes × Fallible Done
write f s u =
    if any (by_uuid u) s then (update (by_uuid u) f s, gives Done.done) else (s, fails no_note)

abbrev pub set_body : String → NoteBasicInfo → NoteBasicInfo
set_body body n = record n { body = body }

abbrev pub set_trashed : NoteBasicInfo → NoteBasicInfo
set_trashed n = record n { trashed = 1 }

abbrev pub set_archived : NoteBasicInfo → NoteBasicInfo
set_archived n = record n { archived = 1 }

abbrev pub new_note : String → String → NoteBasicInfo
new_note title body = record {
  uuid = "bear-new";
  title = title;
  body = body;
  modified_at = record { seconds = 7; nanos = 0 };
  trashed = 0;
  archived = 0;
}

abbrev pub memory_bear : Bear
memory_bear = record {
  State = Notes;
  note_by_uuid = λ s u. gives (select (by_uuid u) s);
  note_tag_titles = λ s u. gives [];
  note_attachment_filenames = λ s u. gives [];
  find_recent_notes_by_title = λ s t. gives (select_all (λ n. n.title == t) s);
  create = λ s t b tags. (s ++ new_note t b ∷ [], gives "bear-new");
  update = λ s u b. write (set_body b) s u;
  add_tag = λ s u t. (s, gives Done.done);
  trash = write set_trashed;
  archive = write set_archived;
  add_file = λ s u name bytes. (s, gives Done.done);
  rename_tag = λ s old new. (s, gives Done.done);
  delete_tag = λ s name. (s, fails no_note);
  sleep = λ s. s;
  download_attachment = λ k. gives (1 ∷ 2 ∷ []);
  describe = λ f. "failed";
  rfc3339 = λ t. "a time";
}

module _ (f : NoteBasicInfo → NoteBasicInfo)
    (keeps : (n : NoteBasicInfo) → (f n).uuid ≡ n.uuid) where
  select-write :
      (u : String) (s : Notes) {n : NoteBasicInfo}
      → select (by_uuid u) s ≡ some n
      → select (by_uuid u) (update (by_uuid u) f s) ≡ some (f n)
  select-write u [] h = ground arith
  select-write u (m ∷ s) {n} h = elim (Bool-cases (m.uuid == u)) [
    | inl e ↦ let same : m ≡ n = ground (arith, e, h) in ground (arith, keeps m, ap f same)
    | inr e ↦ ground (arith, select-write u s {n = n})
  ]

  select-write_other :
      (u v : String) (s : Notes)
      → (v == u) ≡ false
      → select (by_uuid v) (update (by_uuid u) f s) ≡ select (by_uuid v) s
  select-write_other u v [] h = refl
  select-write_other u v (m ∷ s) h = elim (Bool-cases (m.uuid == u)) [
    | inl e ↦
        let other : (m.uuid == v) ≡ false =
          str_eq_sym m.uuid v ∙ ap (λ x. v == x) ((eq_iff m.uuid u).0 e) ∙ h in
        ground (arith, other, keeps m, select-write_other u v s h)
    | inr e ↦ ground (arith, select-write_other u v s h)
  ]

  written :
      (s : Notes) (u : String) {s' : Notes} {d : Done}
      → write f s u ≡ (s', gives d)
      → update (by_uuid u) f s ≡ s'
  written s u h = elim (Bool-cases (any (by_uuid u) s)) [
    | inl e ↦ ap (λ (x : Notes × Fallible Done). x.0) (rw e at h)
    | inr e ↦ cc (ap (λ (x : Notes × Fallible Done). x.1) (rw e at h))
  ]

  Lands-write :
      (after : NoteBasicInfo → Bool)
      → ((n : NoteBasicInfo) → after (f n) ≡ true)
      → Lands memory_bear (write f) after
  Lands-write after holds = record {
    lands = λ s s' u d n run h. (
      f n,
      ap gives (
          ap (select (by_uuid u)) (sym (written s u run))
          ∙ select-write u s {n = n} (found s u n h)),
      holds n,
    );
    others = λ s s' u v d run e.
        ap gives (ap (select (by_uuid v)) (sym (written s u run)) ∙ select-write_other u v s e);
  }
    where
      found :
          (s : Notes) (u : String) (n : NoteBasicInfo)
          → gives (select (by_uuid u) s) ≡ gives (some n)
          → select (by_uuid u) s ≡ some n
      found s u n h = cc

pub memory-FindsAsked : FindsAsked memory_bear
memory-FindsAsked = λ s u n h. (eq_iff n.uuid u).0 (select_sound (by_uuid u) s {x = n} (cc))

pub memory-IsLawful : IsLawful memory_bear
memory-IsLawful = record {
  asked = memory-FindsAsked;
  updates =
      λ body. Lands-write (set_body body) (λ n. refl) (λ n. n.body == body) (λ n. str_eq_self body);
  trashes = Lands-write set_trashed (λ n. refl) (λ n. nat_eq n.trashed 1) (λ n. refl);
  archives = Lands-write set_archived (λ n. refl) (λ n. nat_eq n.archived 1) (λ n. refl);
}

select-append_found :
    (p : NoteBasicInfo → Bool) (s t : Notes) {n : NoteBasicInfo}
    → select p s ≡ some n
    → select p (s ++ t) ≡ some n
select-append_found p [] t h = ground arith
select-append_found p (m ∷ s) t {n} h = ground (arith, select-append_found p s t {n = n})

pub memory-CreateKeeps : CreateKeeps memory_bear
memory-CreateKeeps = λ s title body tags u n h.
    ap gives (select-append_found (by_uuid u) s (new_note title body ∷ []) {n = n} cc)
