-- ===== src/Server/Upload/Many/Interleaved.antt =====
-- What interleaved uploads leave on the disk.
use cccloud.Prelude.{
  arith, if_true, if_false, ==_iff, ◌≢◌, subst, sym, ap₂, ap, ℕ_discrete, inr, ◌∙◌, inl, Bool-cases,
  ℕ, Bool, true, false, List, [], ◌∷◌, ◌++◌, some, ◌≡◌, refl, update, ◌==◌,
}
use mathlib.Core.List.{append-nil, append_assoc}
use mathlib.Core.Option as Opt
use mathlib.Core.Logic.{if_pos, if_neg}
use cccloud.Text.{Text}
use cccloud.Server.{same_refl, same_refl, same, Files, put_file}
use cccloud.Server.Upload.{
  create, Chunk, Upload, start_read, append_to, on_read_done, make_directory, open_file,
  write_chunk, upload_path,
}
use cccloud.Server.Upload.Stores.{good_disk}
use cccloud.Server.Upload.Many.{
  Uploads, seen, arrive, arrive_all, data_of, AreNamed, new_calls, comes_for,
}

-- An upload on the disk that is open and one that is not.
open_step :
    (chunk : Chunk) (path : Text) (u : Upload)
    → u.file_opened ≡ true
    → u.ofs ≡ some path
    → on_read_done true chunk good_disk u ≡ record u {
      files = put_file path (Opt.map (λ t. t ++ chunk.payload) (u.files path)) u.files;
      requests = start_read ∷ u.requests;
    }
unfolding on_read_done write_chunk append_to
open_step chunk path u e f = rw (e, f) refl

abbrev opened_at : Text → Chunk → Upload → Upload
opened_at path chunk u = record u {
  ofs = some path;
  file_opened = true;
  files = append_to (some path) chunk.payload (put_file path (some []) u.files);
  requests = start_read ∷ u.requests;
}

first_step :
    (chunk : Chunk) (path : Text) (u : Upload)
    → u.file_opened ≡ false
    → upload_path u.cwd chunk.filename ≡ path
    → on_read_done true chunk good_disk u ≡ opened_at path chunk u
unfolding on_read_done make_directory open_file write_chunk
first_step chunk path u e f =
    subst (λ path. on_read_done true chunk good_disk u ≡ opened_at path chunk u) f (rw e refl)

update_here : {P : Type 0} (f : ℕ → P) (i : ℕ) (p : P) (j : ℕ) → i ≡ j → update f i p j ≡ p
update_here f i p j e = if_pos (ℕ_discrete i j) e p (f j)

update_away : {P : Type 0} (f : ℕ → P) (i : ℕ) (p : P) (j : ℕ) → i ≢ j → update f i p j ≡ f j
update_away f i p j ne = if_neg (ℕ_discrete i j) ne p (f j)

data_of_here :
    (i j : ℕ) (chunk : Chunk) (arrivals : List (ℕ × Chunk))
    → i ≡ j
    → data_of i ((j, chunk) ∷ arrivals) ≡ chunk.payload ++ data_of i arrivals
unfolding data_of
data_of_here i j chunk arrivals e = if_true (i == j) _ _ ((==_iff i j).1 e)

data_of_away :
    (i j : ℕ) (chunk : Chunk) (arrivals : List (ℕ × Chunk))
    → i ≢ j
    → data_of i ((j, chunk) ∷ arrivals) ≡ data_of i arrivals
unfolding data_of
data_of_away i j chunk arrivals ne = if_false (i == j) _ _ (ground (arith, ne))

comes_for_away :
    (i j : ℕ) (chunk : Chunk) (arrivals : List (ℕ × Chunk))
    → i ≢ j
    → comes_for i ((j, chunk) ∷ arrivals) ≡ comes_for i arrivals
unfolding comes_for
comes_for_away i j chunk arrivals ne = if_false (i == j) _ _ (ground (arith, ne))

module _ (cwd : Text) (name : ℕ → Text) where
  abbrev pub file_of : ℕ → Text
  file_of j = upload_path cwd (name j)

  -- The calls of which `opened` says whether they have their file open.
  record Going (opened : ℕ → Bool) (s : Uploads) : Type 0 where
    dir : (j : ℕ) → (s.calls j).cwd ≡ cwd
    opens : (j : ℕ) → (s.calls j).file_opened ≡ opened j
    targets : (j : ℕ) → opened j ≡ true → (s.calls j).ofs ≡ some (file_of j)

  -- What a chunk for the call `j` does.
  record Arrives (opened : ℕ → Bool) (j : ℕ) (chunk : Chunk) (s t : Uploads) : Type 0 where
    going : Going (update opened j true) t
    first : opened j ≡ false → t.shared (file_of j) ≡ some chunk.payload
    more :
        (s' : Text)
        → opened j ≡ true
        → s.shared (file_of j) ≡ some s'
        → t.shared (file_of j) ≡ some (s' ++ chunk.payload)
    others : (q : Text) → same q (file_of j) ≡ false → t.shared q ≡ s.shared q

  Going-update :
      (opened : ℕ → Bool) (s : Uploads) (j : ℕ) (u : Upload) (files : Files)
      → Going opened s
      → u.cwd ≡ cwd
      → u.file_opened ≡ true
      → u.ofs ≡ some (file_of j)
      → Going (update opened j true) (record { shared = files; calls = update s.calls j u })
  Going-update opened s j u files g d o t = record {
    dir = λ k. elim (ℕ_discrete j k) [
      | yes e ↦ ap (λ u. u.cwd) (update_here s.calls j u k e) ∙ d
      | no ne ↦ ap (λ u. u.cwd) (update_away s.calls j u k ne) ∙ g.dir k
    ];
    opens = λ k. elim (ℕ_discrete j k) [
      | yes e ↦
          ap (λ u. u.file_opened) (update_here s.calls j u k e)
          ∙ o
          ∙ sym (update_here opened j true k e)
      | no ne ↦
          ap (λ u. u.file_opened) (update_away s.calls j u k ne)
          ∙ g.opens k
          ∙ sym (update_away opened j true k ne)
    ];
    targets = λ k h. elim (ℕ_discrete j k) [
      | yes e ↦ ap (λ u. u.ofs) (update_here s.calls j u k e) ∙ t ∙ ap (λ m. some (file_of m)) e
      | no ne ↦
          ap (λ u. u.ofs) (update_away s.calls j u k ne)
          ∙ g.targets k (sym (update_away opened j true k ne) ∙ h)
    ];
  }

  arrives :
      (opened : ℕ → Bool) (j : ℕ) (chunk : Chunk) (s : Uploads)
      → Going opened s
      → (opened j ≡ false → chunk.filename ≡ name j)
      → Arrives opened j chunk s (arrive j chunk s)
  unfolding arrive put_file append_to
  arrives opened j chunk s g named = elim (Bool-cases (opened j)) [
    | inl on ↦
        rw (open_step chunk (file_of j) (seen j s) (g.opens j ∙ on) (g.targets j on)) (record {
          going = Going-update opened s j _ _ g (g.dir j) (g.opens j ∙ on) (g.targets j on);
          first = λ off. absurd (cc (on, off));
          more = λ s' e f. rw (same_refl (file_of j), f) refl;
          others = λ q ne. rw ne refl;
        })
    | inr off ↦
        rw
          (first_step chunk (file_of j) (seen j s) (g.opens j ∙ off)
            (ap₂ upload_path (g.dir j) (named off)))
          (record {
            going = Going-update opened s j _ _ g (g.dir j) refl refl;
            first = λ e. rw (same_refl (file_of j)) refl;
            more = λ s' e f. absurd (cc (off, e));
            others = λ q ne. rw ne refl;
          })
  ]

  -- No two calls name the same file.
  abbrev pub Apart : ℕ → Type 0
  Apart i = (j : ℕ) → i ≢ j → same (file_of i) (file_of j) ≡ false

  opened_continues :
      (i : ℕ) (arrivals : List (ℕ × Chunk)) (opened : ℕ → Bool) (s : Uploads) (t : Text)
      → Apart i
      → Going opened s
      → AreNamed name opened arrivals
      → opened i ≡ true
      → s.shared (file_of i) ≡ some t
      → (arrive_all arrivals s).shared (file_of i) ≡ some (t ++ data_of i arrivals)
  unfolding arrive_all data_of AreNamed
  opened_continues i [] opened s t apart g named on held = held ∙ ap some (sym (append-nil t))
  opened_continues i ((j, chunk) ∷ arrivals) opened s t apart g (first_named, named) on held =
      let a = arrives opened j chunk s g first_named in
      elim (ℕ_discrete i j) [
        | yes e ↦
            opened_continues i arrivals (update opened j true) (arrive j chunk s)
              (t ++ chunk.payload) apart a.going named (update_here opened j true i (sym e))
              (subst (λ k. (arrive j chunk s).shared (file_of k) ≡ some (t ++ chunk.payload))
                (sym e)
                (a.more t (subst (λ k. opened k ≡ true) e on)
                  (subst (λ k. s.shared (file_of k) ≡ some t) e held)))
            ∙ ap some (
                append_assoc t chunk.payload (data_of i arrivals)
                ∙ ap (λ d. t ++ d) (sym (data_of_here i j chunk arrivals e)))
        | no ne ↦
            opened_continues i arrivals (update opened j true) (arrive j chunk s) t apart a.going
              named (update_away opened j true i (λ e. ne (sym e)) ∙ on)
              (a.others (file_of i) (apart j ne) ∙ held)
            ∙ ap (λ d. some (t ++ d)) (sym (data_of_away i j chunk arrivals ne))
      ]

  starts_later :
      (i : ℕ) (arrivals : List (ℕ × Chunk)) (opened : ℕ → Bool) (s : Uploads)
      → Apart i
      → Going opened s
      → AreNamed name opened arrivals
      → opened i ≡ false
      → comes_for i arrivals ≡ true
      → (arrive_all arrivals s).shared (file_of i) ≡ some (data_of i arrivals)
  unfolding arrive_all data_of AreNamed comes_for
  starts_later i [] opened s apart g named off comes = absurd (cc)
  starts_later i ((j, chunk) ∷ arrivals) opened s apart g (first_named, named) off comes =
      let a = arrives opened j chunk s g first_named in
      elim (ℕ_discrete i j) [
        | yes e ↦
            opened_continues i arrivals (update opened j true) (arrive j chunk s) chunk.payload
              apart a.going named (update_here opened j true i (sym e))
              (subst (λ k. (arrive j chunk s).shared (file_of k) ≡ some chunk.payload) (sym e)
                (a.first (subst (λ k. opened k ≡ false) e off)))
            ∙ ap some (sym (data_of_here i j chunk arrivals e))
        | no ne ↦
            starts_later i arrivals (update opened j true) (arrive j chunk s) apart a.going named
              (update_away opened j true i (λ e. ne (sym e)) ∙ off)
              (sym (comes_for_away i j chunk arrivals ne) ∙ comes)
            ∙ ap some (sym (data_of_away i j chunk arrivals ne))
      ]

  new_calls-Going :
      (now : ℕ) (uuid : ℕ → Text) (peer : Text) (files : Files)
      → Going (λ j. false) (new_calls now uuid peer cwd files)
  unfolding new_calls create
  new_calls-Going now uuid peer files = record {
    dir = λ j. refl;
    opens = λ j. refl;
    targets = λ j h. absurd (cc (h));
  }

  -- Any number of uploads at once, on a disk that does not fail, whose chunks arrive in any
  -- interleaving; the first chunk of each call names its file. A call that has received a chunk, and
  -- whose file no other call names, has in its file the data of its own chunks, in their order.
  pub interleaved_uploads_store :
      (now : ℕ) (uuid : ℕ → Text) (peer : Text) (files : Files) (arrivals : List (ℕ × Chunk))
      (i : ℕ)
      → AreNamed name (λ j. false) arrivals
      → Apart i
      → comes_for i arrivals ≡ true
      → (arrive_all arrivals (new_calls now uuid peer cwd files)).shared (file_of i)
        ≡ some (data_of i arrivals)
  interleaved_uploads_store now uuid peer files arrivals i named apart comes =
      starts_later i arrivals (λ j. false) (new_calls now uuid peer cwd files) apart
        (new_calls-Going now uuid peer files) named refl comes
