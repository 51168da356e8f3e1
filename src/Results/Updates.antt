-- ===== src/Results/Updates.antt =====
-- Whether Results want to be updated in the background, across the reads of
-- Realm/ObjectStore/results.cpp.
use realm_cocoa.Base.{
  ℕ, ◌≡◌, refl, ◌∙◌, Bool, true, false, not, ◌&&◌, Option, none, some, if◌then◌else◌,
}
use realm_cocoa.Realm.{SharedGroup, is_in_transaction, can_deliver_notifications}
use realm_cocoa.Results.{
  Core, Mode, mode_empty, mode_table, mode_query, mode_table_view, is_table_view, Results, Call,
  returned, threw, ◌>>=◌, other_thread, detached, validate_read, update_tableview, start_updates,
  of_view, of_table, size, look_up, or_throw, get, first, last, index_of,
}
use realm_cocoa.Results.Answers.{Question, sizes, firsts, lasts, gets, indexes, ask}

module _ (S : SharedGroup) (C : Core) where
  -- The Results after a call.
  abbrev pub after : {A : Type 0} → Call S C A → Results S C
  after (returned a r) = r
  after (threw e r) = r

  -- Whether background updates are wanted is left as it is.
  abbrev pub Keeps : {A : Type 0} → Call S C A → Results S C → Type 0
  Keeps c r = (after c).wants_background_updates ≡ r.wants_background_updates

  pub Keeps-bind :
      {A B : Type 0} (c : Call S C A) (f : A → Results S C → Call S C B) (r : Results S C)
      → Keeps c r
      → ((a : A) (r' : Results S C) → Keeps (f a r') r')
      → Keeps (◌>>=◌ S C c f) r
  Keeps-bind (returned a r') f r h k = k a r' ∙ h
  Keeps-bind (threw e r') f r h k = h

  pub Keeps-if :
      {A : Type 0} (b : Bool) (c d : Call S C A) (r : Results S C)
      → Keeps c r
      → Keeps d r
      → Keeps (if b then c else d) r
  Keeps-if true c d r h k = h
  Keeps-if false c d r h k = k

  pub Keeps-mode :
      {A : Type 0} (m : Mode) (c d e f : Call S C A) (r : Results S C)
      → Keeps c r
      → Keeps d r
      → Keeps e r
      → Keeps f r
      → Keeps (elim m [ mode_empty ↦ c | mode_table ↦ d | mode_query ↦ e | mode_table_view ↦ f ]) r
  Keeps-mode mode_empty c d e f r h k l m = h
  Keeps-mode mode_table c d e f r h k l m = k
  Keeps-mode mode_query c d e f r h k l m = l
  Keeps-mode mode_table_view c d e f r h k l m = m

  pub validate_read-Keeps : (thread : ℕ) (r : Results S C) → Keeps (validate_read S C thread r) r
  unfolding validate_read
  validate_read-Keeps thread r = Keeps-if (other_thread S C thread r.realm) (threw _ r) _ r refl (
      Keeps-if (detached S C r.world r.table) (threw _ r) _ r refl (
        Keeps-if (is_table_view r.mode && not (C.view_attached r.world r.table_view)) (threw _ r)
          (returned tt r) r refl refl))

  pub Keeps-option :
      {A X : Type 0} (o : Option X) (c : Call S C A) (f : X → Call S C A) (r : Results S C)
      → Keeps c r
      → ((x : X) → Keeps (f x) r)
      → Keeps (elim o [ none ↦ c | some x ↦ f x ]) r
  Keeps-option none c f r h k = h
  Keeps-option (some x) c f r h k = k x

  start_updates-Keeps : (r : Results S C) → Keeps (start_updates S C r) r
  start_updates-Keeps r =
      Keeps-option r.background_query _ (λ _. returned tt r) r
        (Keeps-option r.realm (threw _ r) _ r refl (λ realm.
          Keeps-if (not (is_in_transaction S realm) && can_deliver_notifications S realm)
            (returned tt _) (returned tt r) r refl refl))
        (λ _. refl)

  pub update_tableview-Keeps :
      (thread : ℕ) (r : Results S C) → Keeps (update_tableview S C thread r) r
  unfolding update_tableview
  update_tableview-Keeps thread r =
      Keeps-bind (validate_read S C thread r) _ r (validate_read-Keeps thread r) (λ _ r.
        Keeps-mode r.mode (returned tt r) (returned tt r) (returned tt _) _ r refl refl refl
          (Keeps-bind (start_updates S C r) _ r (start_updates-Keeps r) (λ _ r. refl)))

  pub of_view-Keeps :
      {A : Type 0} (thread : ℕ) (f : C.World → C.View → A) (r : Results S C)
      → Keeps (of_view S C thread f r) r
  unfolding of_view
  of_view-Keeps thread f r =
      Keeps-bind (update_tableview S C thread r) _ r (update_tableview-Keeps thread r) (λ _ r. refl)

  pub of_table-Keeps : {A : Type 0} (f : C.Table → A) (r : Results S C) → Keeps (of_table S C f r) r
  of_table-Keeps f r = Keeps-option r.table (threw _ r) (λ t. returned (f t) r) r refl (λ t. refl)

  -- A read that goes by the mode.
  moded-Keeps :
      {A : Type 0} (thread : ℕ) (c d e f : Results S C → Call S C A) (r : Results S C)
      → ((r : Results S C) → Keeps (c r) r)
      → ((r : Results S C) → Keeps (d r) r)
      → ((r : Results S C) → Keeps (e r) r)
      → ((r : Results S C) → Keeps (f r) r)
      → Keeps
          (◌>>=◌ S C (validate_read S C thread r) (λ _ r. elim r.mode [
            | mode_empty ↦ c r
            | mode_table ↦ d r
            | mode_query ↦ e r
            | mode_table_view ↦ f r
          ]))
          r
  moded-Keeps thread c d e f r h k l m =
      Keeps-bind (validate_read S C thread r) _ r (validate_read-Keeps thread r)
        (λ _ r. Keeps-mode r.mode (c r) (d r) (e r) (f r) r (h r) (k r) (l r) (m r))

  size-Keeps : (thread : ℕ) (r : Results S C) → Keeps (size S C thread r) r
  unfolding size
  size-Keeps thread r =
      moded-Keeps thread (returned 0) (λ r. of_table S C (C.table_size r.world) r)
        (λ r. returned (C.count r.world r.query) r) (of_view S C thread C.view_size) r (λ r. refl)
        (λ r. of_table-Keeps (C.table_size r.world) r) (λ r. refl)
        (of_view-Keeps thread C.view_size)

  first-Keeps : (thread : ℕ) (r : Results S C) → Keeps (first S C thread r) r
  unfolding first
  first-Keeps thread r =
      moded-Keeps thread _ _ _ _ r (λ r. refl) (λ r. of_table-Keeps _ r) (of_view-Keeps thread _)
        (of_view-Keeps thread _)

  last-Keeps : (thread : ℕ) (r : Results S C) → Keeps (last S C thread r) r
  unfolding last
  last-Keeps thread r =
      moded-Keeps thread _ _ _ _ r (λ r. refl) (λ r. of_table-Keeps _ r) (of_view-Keeps thread _)
        (of_view-Keeps thread _)

  pub index_of-Keeps : (thread x : ℕ) (r : Results S C) → Keeps (index_of S C thread x r) r
  unfolding index_of
  index_of-Keeps thread x r =
      moded-Keeps thread _ _ _ _ r (λ r. refl) (λ r. refl) (of_view-Keeps thread _)
        (of_view-Keeps thread _)

  look_up-Keeps : (thread i : ℕ) (r : Results S C) → Keeps (look_up S C thread i r) r
  unfolding look_up
  look_up-Keeps thread i r =
      moded-Keeps thread _ _ _ _ r (λ r. refl) (λ r. of_table-Keeps _ r) (of_view-Keeps thread _)
        (of_view-Keeps thread _)

  or_throw-Keeps :
      (thread i : ℕ) (x : Option ℕ) (r : Results S C) → Keeps (or_throw S C thread i x r) r
  unfolding or_throw
  or_throw-Keeps thread i none r =
      Keeps-bind (size S C thread r) _ r (size-Keeps thread r) (λ _ r. refl)
  or_throw-Keeps thread i (some x) r = refl

  get-Keeps : (thread i : ℕ) (r : Results S C) → Keeps (get S C thread i r) r
  unfolding get
  get-Keeps thread i r =
      Keeps-bind (look_up S C thread i r) (or_throw S C thread i) r (look_up-Keeps thread i r)
        (or_throw-Keeps thread i)

  pub ask-Keeps : (thread : ℕ) (q : Question) (r : Results S C) → Keeps (ask S C thread q r) r
  ask-Keeps thread sizes r = Keeps-bind (size S C thread r) _ r (size-Keeps thread r) (λ _ r. refl)
  ask-Keeps thread firsts r =
      Keeps-bind (first S C thread r) _ r (first-Keeps thread r) (λ _ r. refl)
  ask-Keeps thread lasts r = Keeps-bind (last S C thread r) _ r (last-Keeps thread r) (λ _ r. refl)
  ask-Keeps thread (gets i) r =
      Keeps-bind (get S C thread i r) _ r (get-Keeps thread i r) (λ _ r. refl)
  ask-Keeps thread (indexes x) r =
      Keeps-bind (index_of S C thread x r) _ r (index_of-Keeps thread x r) (λ _ r. refl)
