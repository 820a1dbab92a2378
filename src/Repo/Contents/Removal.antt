-- ===== src/Repo/Contents/Removal.antt =====
-- DeleteTopicArchives and DropExpiredArchives, when no system call fails: the records that the mirror names are
-- gone, and so are their entries.
use mem_hop.Prelude.{
  ℕ, ◌≡◌, refl, sym, ap, ◌∙◌, List, [], ◌∷◌, ◌++◌, Bool, false, none, any, not, contains, keep_if,
  length, ◌==◌, ◌&&◌, ◌||◌, if◌then◌else◌, arith, Bool-cases, inl, inr, ==_iff,
}
use mem_hop.Prelude.Int.{ℤ, lt_int}
use mem_hop.Prelude.Map.{Map, get, Distinct, get-delete}
use mem_hop.Common.{dedup_sorted, contains-dedup_sorted}
use mem_hop.Errors.{ok}
use mem_hop.Storage.Read.{read_record}
use mem_hop.Storage.Ready.{IsReady}
use mem_hop.Storage.Store.Purge.{is_live, without, delete_record_batch-read_record}
use mem_hop.Index.Content.{
  Entry, ContentIndex, at_topic, ids, all_ids, expired_ids, expired_before, remove_ids,
  remove_topic,
}
use mem_hop.Index.Content.Removal.{kept, at_topic-remove_ids}
use mem_hop.Repo.Contents.{
  Contents, credited, remove_topics, delete_topic_archives, all_expired, sweep,
  drop_expired_archives,
}

contains-append :
    (xs ys : List ℕ) (j : ℕ) → contains (xs ++ ys) j ≡ (contains xs j || contains ys j)
contains-append [] ys j = refl
contains-append (x ∷ xs) ys j = ground (arith, contains-append xs ys j)

-- Whether an entry of the list names the record.
abbrev pub names : List Entry → ℕ → Bool
names es j = any (λ e. e.id_hash == j) es

contains-ids : (es : List Entry) (j : ℕ) → contains (ids none es) j ≡ names es j
unfolding ids
contains-ids [] j = refl
contains-ids (e ∷ es) j = ap (λ b. e.id_hash == j || b) (contains-ids es j)

contains-credited :
    (idx : ContentIndex) (topics : List ℕ) (j : ℕ)
    → contains (credited idx topics) j ≡ any (λ t. names (at_topic idx t) j) topics
unfolding credited all_ids
contains-credited idx [] j = refl
contains-credited idx (t ∷ topics) j =
    contains-append (ids none (at_topic idx t)) (credited idx topics) j
    ∙ rw (contains-ids (at_topic idx t) j, contains-credited idx topics j) refl

at_topic-remove_topics :
    (topics : List ℕ) (idx : ContentIndex) (u : ℕ)
    → at_topic (remove_topics topics idx) u ≡ (if contains topics u then [] else at_topic idx u)
unfolding remove_topics remove_topic
at_topic-remove_topics [] idx u = refl
at_topic-remove_topics (t ∷ topics) idx u =
    at_topic-remove_topics topics (remove_topic idx t) u ∙ ground (arith, get-delete idx t u)

-- When no system call fails, on a ready engine: DeleteTopicArchives succeeds, every record that the mirror
-- credits one of the topics with reads as missing, every other record as before, and the mirror has lost
-- those topics and no others.
pub delete_topic_archives_lem :
    (a : ℕ) (topics : List ℕ) (s : Contents)
    → s.engine.plan ≡ []
    → IsReady s.engine
    → (s' : Contents) × (delete_topic_archives a topics s ≡ (ok tt, s'))
      × IsReady s'.engine
      × (s'.engine.plan ≡ [])
      × ((b j : ℕ)
          → read_record s'.engine b j ≡ (
              without
                (a == b && any (λ t. names (at_topic s.index t) j) topics)
                (read_record s.engine b j)))
      × ((u : ℕ) → at_topic s'.index u ≡ (if contains topics u then [] else at_topic s.index u))
unfolding delete_topic_archives
delete_topic_archives_lem a topics s calm ready =
    let doomed = credited s.index topics in
    let (e', eq, ready', calm', law) =
      delete_record_batch-read_record s.engine calm ready a (dedup_sorted doomed) in
    (
      record { engine = e'; index = remove_topics topics s.index },
      rw eq refl,
      ready',
      calm',
      (λ b j.
          law b j
          ∙ ap (λ c. without (a == b && c) (read_record s.engine b j))
              (contains-dedup_sorted doomed j ∙ contains-credited s.index topics j)),
      at_topic-remove_topics topics s.index,
    )

-- Whether an entry that is too old names the record.
abbrev pub names_old : ℤ → List Entry → ℕ → Bool
names_old cutoff es j = any (λ e. lt_int e.created_at cutoff && e.id_hash == j) es

contains-expired_ids :
    (cutoff : ℤ) (es : List Entry) (j : ℕ)
    → contains (expired_ids cutoff es) j ≡ names_old cutoff es j
unfolding expired_ids
contains-expired_ids cutoff [] j = refl
contains-expired_ids cutoff (e ∷ es) j = elim (Bool-cases (lt_int e.created_at cutoff)) [
  | inl old ↦ rw old (ap (λ b. e.id_hash == j || b) (contains-expired_ids cutoff es j))
  | inr new ↦ rw new (contains-expired_ids cutoff es j)
]

-- One topic of the answer of ExpiredBefore.
abbrev with_topic : ℕ → List ℕ → Map (List ℕ) → Map (List ℕ)
with_topic t [] rest = rest
with_topic t (x ∷ xs) rest = (t, x ∷ xs) ∷ rest

expired_before-cons :
    (t : ℕ) (es : List Entry) (idx : ContentIndex) (cutoff : ℤ)
    → expired_before ((t, es) ∷ idx) cutoff
      ≡ with_topic t (expired_ids cutoff es) (expired_before idx cutoff)
unfolding expired_before
expired_before-cons t es idx cutoff = split (expired_ids cutoff es)
  where
    split :
        (xs : List ℕ)
        → (elim xs [
          | [] ↦ expired_before idx cutoff
          | x ∷ xs ↦ (t, x ∷ xs) ∷ expired_before idx cutoff
        ])
          ≡ with_topic t xs (expired_before idx cutoff)
    split [] = refl
    split (x ∷ xs) = refl

all_expired-with_topic :
    (t : ℕ) (xs : List ℕ) (rest : Map (List ℕ))
    → all_expired (with_topic t xs rest) ≡ xs ++ all_expired rest
unfolding all_expired
all_expired-with_topic t [] rest = refl
all_expired-with_topic t (x ∷ xs) rest = refl

contains-all_expired :
    (idx : ContentIndex) (cutoff : ℤ) (j : ℕ)
    → contains (all_expired (expired_before idx cutoff)) j
      ≡ any (λ row. names_old cutoff row.1 j) idx
unfolding expired_before all_expired
contains-all_expired [] cutoff j = refl
contains-all_expired ((t, es) ∷ idx) cutoff j =
    ap (λ m. contains (all_expired m) j) (expired_before-cons t es idx cutoff)
    ∙ ap (λ xs. contains xs j)
        (all_expired-with_topic t (expired_ids cutoff es) (expired_before idx cutoff))
    ∙ contains-append (expired_ids cutoff es) (all_expired (expired_before idx cutoff)) j
    ∙ rw (contains-expired_ids cutoff es j, contains-all_expired idx cutoff j) refl

-- The ids that the sweep takes from one topic.
abbrev taken : Map (List ℕ) → ℕ → List ℕ
taken [] u = []
taken ((t, ids) ∷ expired) u = if t == u then ids ++ taken expired u else taken expired u

keep_if-twice :
    (xs ys : List ℕ) (es : List Entry)
    → keep_if (kept ys) (keep_if (kept xs) es) ≡ keep_if (kept (xs ++ ys)) es
keep_if-twice xs ys [] = refl
keep_if-twice xs ys (e ∷ es) =
    rw (contains-append xs ys e.id_hash) (ground (arith, keep_if-twice xs ys es))

keep_if-none : (es : List Entry) → keep_if (kept []) es ≡ es
keep_if-none [] = refl
keep_if-none (e ∷ es) = ap (λ r. e ∷ r) (keep_if-none es)

at_topic-sweep :
    (expired : Map (List ℕ)) (idx : ContentIndex) (u : ℕ)
    → at_topic (sweep expired idx) u ≡ keep_if (kept (taken expired u)) (at_topic idx u)
unfolding sweep
at_topic-sweep [] idx u = sym (keep_if-none (at_topic idx u))
at_topic-sweep ((t, ids) ∷ expired) idx u = elim (Bool-cases (t == u)) [
  | inl same ↦
      at_topic-sweep expired (remove_ids idx t ids) u
      ∙ ap (keep_if (kept (taken expired u))) (at_topic-remove_ids idx t ids u)
      ∙ rw (same, (==_iff t u).0 same) (keep_if-twice ids (taken expired u) (at_topic idx u))
  | inr other ↦
      at_topic-sweep expired (remove_ids idx t ids) u
      ∙ ap (keep_if (kept (taken expired u))) (at_topic-remove_ids idx t ids u)
      ∙ rw other refl
]

taken-with_topic :
    (t : ℕ) (xs : List ℕ) (rest : Map (List ℕ)) (u : ℕ)
    → taken (with_topic t xs rest) u ≡ (if t == u then xs ++ taken rest u else taken rest u)
taken-with_topic t [] rest u = ground arith
taken-with_topic t (x ∷ xs) rest u = refl

taken-expired_before :
    (idx : ContentIndex) (cutoff : ℤ) (u j : ℕ)
    → Distinct idx
    → contains (taken (expired_before idx cutoff) u) j ≡ names_old cutoff (at_topic idx u) j
unfolding get expired_before
taken-expired_before [] cutoff u j d = refl
taken-expired_before ((t, es) ∷ idx) cutoff u j d = elim (Bool-cases (t == u)) [
  | inl same ↦
      let absent : get idx u ≡ none = rw (sym ((==_iff t u).0 same)) d.0 in
      let rest : contains (taken (expired_before idx cutoff) u) j ≡ false =
        taken-expired_before idx cutoff u j d.1 ∙ rw absent refl in
      listed
      ∙ rw (same, contains-append (expired_ids cutoff es) (taken (expired_before idx cutoff) u) j)
          (rw (contains-expired_ids cutoff es j, rest) (ground arith))
  | inr other ↦ listed ∙ rw other (taken-expired_before idx cutoff u j d.1)
]
  where
    listed :
        contains (taken (expired_before ((t, es) ∷ idx) cutoff) u) j
        ≡ contains
            (if t == u
              then expired_ids cutoff es ++ taken (expired_before idx cutoff) u
              else taken (expired_before idx cutoff) u)
            j
    listed =
        ap (λ m. contains (taken m u) j) (expired_before-cons t es idx cutoff)
        ∙ ap (λ xs. contains xs j)
            (taken-with_topic t (expired_ids cutoff es) (expired_before idx cutoff) u)

-- The entries whose record no expired entry of the topic names.
abbrev pub current : ℤ → List Entry → Entry → Bool
current cutoff es e = not (names_old cutoff es e.id_hash)

keep_if-ext :
    (p q : Entry → Bool) (es : List Entry) → ((e : Entry) → p e ≡ q e) → keep_if p es ≡ keep_if q es
keep_if-ext p q [] h = refl
keep_if-ext p q (e ∷ es) h = rw (h e, keep_if-ext p q es h) refl

-- When no system call fails, on a ready engine and a mirror with no topic twice: DropExpiredArchives answers how many
-- of the expired ids the store held; every record of the domain that an entry older than the cutoff names
-- reads as missing, every other record as before; and the mirror keeps of each
-- topic, in order, the entries that name no record that an expired entry of that topic names.
pub drop_expired_archives_lem :
    (a : ℕ) (cutoff : ℤ) (s : Contents)
    → s.engine.plan ≡ []
    → IsReady s.engine
    → Distinct s.index
    → (s' : Contents) × (drop_expired_archives a cutoff s ≡ (
      ok (length (keep_if (is_live s.engine a) (all_expired (expired_before s.index cutoff)))),
      s',
    ))
      × IsReady s'.engine
      × (s'.engine.plan ≡ [])
      × ((b j : ℕ)
          → read_record s'.engine b j ≡ (
              without
                (a == b && any (λ row. names_old cutoff row.1 j) s.index)
                (read_record s.engine b j)))
      × ((u : ℕ)
          → at_topic s'.index u
            ≡ keep_if (current cutoff (at_topic s.index u)) (at_topic s.index u))
unfolding drop_expired_archives
drop_expired_archives_lem a cutoff s calm ready distinct =
    let expired = expired_before s.index cutoff in
    let (e', eq, ready', calm', law) =
      delete_record_batch-read_record s.engine calm ready a (all_expired expired) in
    (
      record { engine = e'; index = sweep expired s.index },
      rw eq refl,
      ready',
      calm',
      (λ b j.
          law b j
          ∙ ap (λ c. without (a == b && c) (read_record s.engine b j))
              (contains-all_expired s.index cutoff j)),
      λ u.
          at_topic-sweep expired s.index u
          ∙ keep_if-ext (kept (taken expired u)) (current cutoff (at_topic s.index u))
              (at_topic s.index u)
              (λ e. ap not (taken-expired_before s.index cutoff u e.id_hash distinct)),
    )
