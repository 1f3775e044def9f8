-- ===== src/Driver/Listing/Paging/Walk.antt =====
-- Following the tokens of ListVolumes from page to page.
use mathlib.Core.List.{cons-ne-nil}
use qnap_csi.Base.{
  ℕ, zero, suc, ◌^◌, ◌≤◌, ◌<◌, ◌≡◌, ◌≢◌, refl, sym, ◌∙◌, ap, List, [], ◌∷◌, ◌++◌, append-nil, arith,
  Text, is_blank, some, none, Option, map-append, FinSet, IsFinSet, length, take, drop,
  take-append-drop, length-drop, if◌then◌else◌,
}
use qnap_csi.Base.Int.{ℤ, pos, eq_ℤ}
use qnap_csi.Qnap.Types.{StorageIscsiTargetInfo}
use qnap_csi.Driver.Handler.{reply}
use qnap_csi.Driver.Token.Int64.{HoldsInt64}
use qnap_csi.Driver.Token.RoundTrip.{is_blank-token}
use qnap_csi.Driver.Listing.{Page, fill, start, seen_ids, limit_of, page_of}
use qnap_csi.Driver.Listing.Paging.{names, unseen, insert_targets, token_behind, fill_lem}
use qnap_csi.Driver.Listing.Paging.Seen.{
  unseen_cong, unseen-insert_targets, has-insert_targets, has_new, IndexesInt64,
  insert_targets-HoldsInt64, to_list-ne-nil, seen_ids-token, seen_ids-HoldsInt64,
}

-- The entries of a page in front of those of the later pages.
abbrev before : List Text → Option (List Text) → Option (List Text)
before entries none = none
before entries (some more) = some (entries ++ more)

module _ (sets : FinSet eq_ℤ) (max : ℕ) (ts : List StorageIscsiTargetInfo) where
  -- The entries of the pages from a token on, to the page that has no next token; `none` if there
  -- are more pages than fuel, or no page.
  pub walk : ℕ → Text → Option (List Text)
  walk zero token = none
  walk (suc fuel) token =
      elim (page_of sets (record { starting_token = token; max_entries = pos max }) ts) [
        | reply page ↦
            let rest = walk fuel page.next_token in
            if is_blank page.next_token then some page.entries else before page.entries rest
        | _ ↦ none
      ]

  walk_step :
      (fuel : ℕ) (token : Text) (page : Page)
      → page_of sets (record { starting_token = token; max_entries = pos max }) ts ≡ reply page
      → walk (suc fuel) token ≡ (
          if is_blank page.next_token
          then some page.entries
          else before page.entries (walk fuel page.next_token))
  unfolding walk
  walk_step fuel token page e = rw (e, walk)

module _ (sets : FinSet eq_ℤ) (L : IsFinSet sets) (k : ℕ) (ts : List StorageIscsiTargetInfo) where
  start-some :
      (max : ℤ) (us : List StorageIscsiTargetInfo) (s : sets.Carrier)
      → start sets max us (some s) ≡ reply (fill sets max us s [])
  unfolding start
  start-some max [] s = refl
  start-some max (t ∷ us) s = refl

  limit_of_positive : limit_of sets (pos (suc k)) ts ≡ pos (suc k)
  unfolding limit_of
  limit_of_positive = ground arith

  -- The page of a token that is read as the set `s`.
  page_lem :
      (token : Text) (s : sets.Carrier)
      → suc k < 2 ^ 31
      → seen_ids sets token ≡ some s
      → page_of sets (record { starting_token = token; max_entries = pos (suc k) }) ts
        ≡ reply (record {
          entries = names (take (suc k) (unseen sets s ts));
          next_token =
              token_behind sets
                (insert_targets sets (take (suc k) (unseen sets s ts)) s)
                (drop (suc k) (unseen sets s ts));
        })
  unfolding page_of
  page_lem token s small read =
      rw (read, limit_of_positive, start-some)
        (ap reply (fill_lem sets ts s [] (suc k) (suc k) (omega arith) small))

  -- A page that leaves something has taken something.
  taken-ne-nil :
      (us : List StorageIscsiTargetInfo) (s : sets.Carrier)
      → drop (suc k) us ≢ []
      → sets.to_list (insert_targets sets (take (suc k) us) s) ≢ []
  taken-ne-nil [] s h = absurd (h refl)
  taken-ne-nil (u ∷ us) s h = to_list-ne-nil sets L _ u.target_index (
      has-insert_targets sets L (take k us) (sets.insert u.target_index s) u.target_index
        (has_new sets L s u.target_index))

  names-split :
      (n : ℕ) (us : List StorageIscsiTargetInfo) → names (take n us) ++ names (drop n us) ≡ names us
  names-split n us =
      sym (map-append (λ t. t.name) (take n us) (drop n us)) ∙ ap names (take-append-drop n us)

  abbrev WalksFrom : ℕ → Type 0
  WalksFrom fuel =
      (token : Text) (s : sets.Carrier)
      → HoldsInt64 sets L s
      → seen_ids sets token ≡ some s
      → length (unseen sets s ts) < fuel
      → walk sets (suc k) ts fuel token ≡ some (names (unseen sets s ts))

  -- The pages behind a page.
  walk_on :
      (fuel : ℕ) (s : sets.Carrier) (left : List StorageIscsiTargetInfo)
      → IndexesInt64 sets L ts
      → HoldsInt64 sets L s
      → length (unseen sets s ts) < suc fuel
      → WalksFrom fuel
      → let us = unseen sets s ts in
        let behind =
          token_behind sets (insert_targets sets (take (suc k) us) s) (drop (suc k) us) in
        drop (suc k) us ≡ left
        → (if is_blank behind
            then some (names (take (suc k) us))
            else before (names (take (suc k) us)) (walk sets (suc k) ts fuel behind))
          ≡ some (names us)
  unfolding is_blank
  walk_on fuel s [] hs h enough later e =
      let us = unseen sets s ts in
      let whole : names (take (suc k) us) ++ [] ≡ names us = rw e at (names-split (suc k) us) in
      rw e (ap some (sym (append-nil (names (take (suc k) us))) ∙ whole))
  walk_on fuel s (t ∷ left) hs h enough later e =
      let us = unseen sets s ts in
      let s' = insert_targets sets (take (suc k) us) s in
      let ne : sets.to_list s' ≢ [] = taken-ne-nil us s (rw e (cons-ne-nil t left)) in
      let kept = insert_targets-HoldsInt64 sets L (suc k) ts s hs h in
      let (s'', read, same) = seen_ids-token sets L s' ne kept in
      let remains : unseen sets s'' ts ≡ drop (suc k) us =
        unseen_cong sets L ts s'' s' same ∙ unseen-insert_targets sets L (suc k) ts s in
      let shorter : length (unseen sets s'' ts) < fuel =
        rw remains (omega (arith, length-drop (suc k) us, ap length e)) in
      let rest = later _ s'' (λ a m. kept a (sym (same a) ∙ m)) read shorter in
      let rest' = rest ∙ ap (λ l. some (names l)) remains in
      rw (e, is_blank-token (sets.to_list s') ne, rest') (ap some (names-split (suc k) us))

  walk_from : (fuel : ℕ) → suc k < 2 ^ 31 → IndexesInt64 sets L ts → WalksFrom fuel
  walk_from zero small hs token s h read enough = elim enough [ ]
  walk_from (suc fuel) small hs token s h read enough =
      walk_step sets (suc k) ts fuel token _ (page_lem token s small read)
      ∙ walk_on fuel s (drop (suc k) (unseen sets s ts)) hs h enough (walk_from fuel small hs) refl

  length-unseen :
      (s : sets.Carrier) (us : List StorageIscsiTargetInfo) → length (unseen sets s us) ≤ length us
  length-unseen s [] = omega arith
  length-unseen s (t ∷ us) =
      ground (arith, length-unseen s us, length-unseen (sets.insert t.target_index s) us)

  -- For any lawful set of numbers, a page size from 1 to 2^31 - 1, a list of targets with int64
  -- indexes that does not change meanwhile, and a nonblank token, read as the set s (the empty one
  -- if it cannot be read): following the next tokens from it comes to an end within one page more
  -- than there are targets, without an error, and the entries of all pages together are the names of
  -- the targets whose index is not in s, each index once, in the order of the list.
  pub pages_complete :
      (token : Text) (s : sets.Carrier)
      → suc k < 2 ^ 31
      → IndexesInt64 sets L ts
      → seen_ids sets token ≡ some s
      → walk sets (suc k) ts (suc (length ts)) token ≡ some (names (unseen sets s ts))
  pages_complete token s small hs read =
      walk_from (suc (length ts)) small hs token s (seen_ids-HoldsInt64 sets L token s read) read
        (omega (arith, length-unseen s ts))
