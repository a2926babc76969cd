-- ===== src/Resume/Resolve/Laws.antt =====
-- What `resolveResumeCandidates` of src/resume-resolve.ts finds, as a relation on the visits of the
-- candidates in their order.
use agent_governance.Base.{
  ◌≡◌, refl, sym, ap, subst, ◌⊎◌, inl, inr, String, Option, none, some, List, [], ◌∷◌, ◌++◌, any,
  Bool-cases, All, All-append, string_eq,
}
use agent_governance.Contracts.Effects.{Outcome, returned, threw}
use agent_governance.Contracts.Types.{Thrown}
use agent_governance.Resume.State.{ResumeCheckpoint}
use agent_governance.Resume.Store.History.{System, read}
use agent_governance.Resume.Resolve.{
  ResolveContext, ResumeResolution, ResolveOutcome, resume, invalid, unsafe_directory,
  corrupted_history, Identity, same_identity, match_of, conclude, Directories, opened, after_read,
  after_open, resolve_all, resolve_resume_candidates,
}
use agent_governance.Resume.Resolve.Match.{
  IsOpen, IsBound, Describes, Adds, empty_store, match, no_match_here, match_of-Adds, Concludes,
  nothing, one, several, conclude-Concludes, IsSeen, any-IsSeen, IsSeen-any,
}

module _ {W : Type 0} (directories : Directories W) (context : ResolveContext) where
  -- Each candidate is opened once and read, and what matches is collected.
  pub data Visits : List String → List Identity → W → List ResumeResolution → Type 0 where
    done : {seen : List Identity} {w : W} → Visits [] seen w []
    repeated :
        {path : String} {rest : List String} {seen : List Identity} {w v : W} {store : System W}
        {identity : Identity} {found : List ResumeResolution}
        → opened directories context path w ≡ (returned (store, identity), v)
        → IsSeen identity seen
        → Visits rest seen v found
        → Visits (path ∷ rest) seen w found
    visited :
        {path : String} {rest : List String} {seen : List Identity} {w v u : W} {store : System W}
        {identity : Identity} {cp : Option ResumeCheckpoint} {added found : List ResumeResolution}
        → opened directories context path w ≡ (returned (store, identity), v)
        → ¬ IsSeen identity seen
        → read store none v ≡ (returned cp, u)
        → Visits rest (identity ∷ seen) u found
        → Adds context path cp added
        → Visits (path ∷ rest) seen w (added ++ found)

  -- A candidate cannot be opened, or its history is not accepted.
  pub data Fails : List String → List Identity → W → ResolveOutcome → Type 0 where
    unsafe :
        {path : String} {rest : List String} {seen : List Identity} {w v : W} {t : Thrown}
        → opened directories context path w ≡ (threw t, v)
        → Fails (path ∷ rest) seen w (invalid unsafe_directory path)
    corrupted :
        {path : String} {rest : List String} {seen : List Identity} {w v u : W} {store : System W}
        {identity : Identity} {t : Thrown}
        → opened directories context path w ≡ (returned (store, identity), v)
        → ¬ IsSeen identity seen
        → read store none v ≡ (threw t, u)
        → Fails (path ∷ rest) seen w (invalid corrupted_history path)
    past_repeated :
        {path : String} {rest : List String} {seen : List Identity} {w v : W} {store : System W}
        {identity : Identity} {o : ResolveOutcome}
        → opened directories context path w ≡ (returned (store, identity), v)
        → IsSeen identity seen
        → Fails rest seen v o
        → Fails (path ∷ rest) seen w o
    past_visited :
        {path : String} {rest : List String} {seen : List Identity} {w v u : W} {store : System W}
        {identity : Identity} {cp : Option ResumeCheckpoint} {o : ResolveOutcome}
        → opened directories context path w ≡ (returned (store, identity), v)
        → ¬ IsSeen identity seen
        → read store none v ≡ (returned cp, u)
        → Fails rest (identity ∷ seen) u o
        → Fails (path ∷ rest) seen w o

  -- The call returns an outcome: that of all matches, or that of the first candidate that fails.
  abbrev pub IsResolved :
      List String → List Identity → List ResumeResolution → W → Outcome ResolveOutcome → Type 0
  IsResolved candidates seen matches w answer =
      (o : ResolveOutcome) × (answer ≡ returned o)
      × (((found : List ResumeResolution) × Visits candidates seen w found
            × Concludes (matches ++ found) o)
          ⊎ Fails candidates seen w o)

  append_assoc : (xs ys zs : List ResumeResolution) → (xs ++ ys) ++ zs ≡ xs ++ (ys ++ zs)
  append_assoc [] ys zs = refl
  append_assoc (x ∷ xs) ys zs = λ i. x ∷ append_assoc xs ys zs i

  append_nil : (xs : List ResumeResolution) → xs ++ [] ≡ xs
  append_nil [] = refl
  append_nil (x ∷ xs) = λ i. x ∷ append_nil xs i

  resolve_all-IsResolved :
      (candidates : List String) (seen : List Identity) (matches : List ResumeResolution) (w : W)
      → IsResolved candidates seen matches w
          (resolve_all directories context candidates seen matches w).0
  unfolding resolve_all after_open after_read
  resolve_all-IsResolved [] seen matches w = (
    conclude matches,
    refl,
    inl (
      [],
      done,
      subst (λ ms. Concludes ms (conclude matches)) (sym (append_nil matches))
          (conclude-Concludes matches),
    ),
  )
  resolve_all-IsResolved (path ∷ rest) seen matches w =
      at_open (opened directories context path w).0 (opened directories context path w).1 refl
        (resolve_all-IsResolved rest)
    where
      Answer : Type 0
      Answer =
          (s : List Identity) (ms : List ResumeResolution) (v : W)
          → IsResolved rest s ms v (resolve_all directories context rest s ms v).0

      at_read :
          (store : System W) (identity : Identity) (v : W)
          → opened directories context path w ≡ (returned (store, identity), v)
          → ¬ IsSeen identity seen
          → (o : Outcome (Option ResumeCheckpoint)) (u : W) → read store none v ≡ (o, u)
          → Answer
          → IsResolved
              (path ∷ rest)
              seen
              matches
              w
              (after_read directories context path
                (identity ∷ seen)
                matches
                (resolve_all directories context rest)
                o
                u).0
      at_read store identity v q new (returned cp) u r later =
          let (o, e, h) = later (identity ∷ seen) (matches ++ match_of context path cp) u in
          (
            o,
            e,
            elim h [
              | inl (found, visits, q2) ↦ inl (
                match_of context path cp ++ found,
                visited q new r visits (match_of-Adds context path cp),
                subst (λ ms. Concludes ms o) (append_assoc matches (match_of context path cp) found)
                    q2,
              )
              | inr fails ↦ inr (past_visited q new r fails)
            ],
          )
      at_read store identity v q new (threw t) u r later =
          (invalid corrupted_history path, refl, inr (corrupted q new r))

      at_open :
          (o : Outcome (System W × Identity)) (v : W)
          → opened directories context path w ≡ (o, v)
          → Answer
          → IsResolved
              (path ∷ rest)
              seen
              matches
              w
              (after_open directories context path seen matches
                (resolve_all directories context rest)
                o
                v).0
      at_open (returned (store, identity)) v q later =
          elim (Bool-cases (any (same_identity identity) seen)) [
            | inl old ↦
                let (o, e, h) = later seen matches v in
                simp old (
                  o,
                  e,
                  elim h [
                    | inl (found, visits, q2) ↦
                        inl (found, repeated q (any-IsSeen identity seen old) visits, q2)
                    | inr fails ↦ inr (past_repeated q (any-IsSeen identity seen old) fails)
                  ],
                )
            | inr new ↦ simp new (
                at_read store identity v q (λ found. let hit = IsSeen-any identity seen found in cc)
                  (read store none v).0 (read store none v).1 refl later)
          ]
      at_open (threw t) v q later = (invalid unsafe_directory path, refl, inr (unsafe q))

  -- The call always returns. If each candidate can be opened and read, the outcome is that of the
  -- matches: with none there is no match, one is resumed, several are ambiguous, and each directory,
  -- by its device and inode, counts once. Otherwise it names
  -- the first candidate that cannot.
  pub resolve_resume_candidates-IsResolved :
      (candidates : List String) (w : W)
      → (o : ResolveOutcome) × ((resolve_resume_candidates directories context candidates w).0
          ≡ returned o)
        × (((found : List ResumeResolution) × Visits candidates [] w found × Concludes found o)
            ⊎ Fails candidates [] w o)
  unfolding resolve_resume_candidates
  resolve_resume_candidates-IsResolved candidates w = resolve_all-IsResolved candidates [] [] w

  -- The store has been read, its task is not finished and its bindings are those of the context.
  abbrev pub IsMatch : ResumeResolution → Type 0
  IsMatch r =
      (cp : ResumeCheckpoint) × (store : System W) × (v : W) × ((read store none v).0
        ≡ returned (some cp))
      × IsOpen cp
      × IsBound context cp
      × Describes r r.store cp

  Adds-IsMatch :
      (path : String) (cp : Option ResumeCheckpoint) (added : List ResumeResolution)
      (store : System W) (v u : W)
      → read store none v ≡ (returned cp, u)
      → Adds context path cp added
      → All IsMatch added
  Adds-IsMatch path _ _ store v u q empty_store = tt
  Adds-IsMatch path _ _ store v u q (match {cp = cp} {r = r} is_open bound describes) = (
    (
      cp,
      store,
      v,
      ap (λ o. o.0) q,
      is_open,
      bound,
      subst (λ s. Describes r s cp) (sym describes.store) describes,
    ),
    tt,
  )
  Adds-IsMatch path _ _ store v u q (no_match_here h) = tt

  Visits-IsMatch :
      (candidates : List String) (seen : List Identity) (w : W) (found : List ResumeResolution)
      → Visits candidates seen w found
      → All IsMatch found
  Visits-IsMatch _ _ _ _ done = tt
  Visits-IsMatch _ _ _ _ (repeated q old visits) = Visits-IsMatch _ _ _ _ visits
  Visits-IsMatch _ _ _ _
        (visited {path = path} {v = v} {u = u} {store = store} {cp = cp} {added = added}
          {found = more} q new r visits adds) =
      All-append IsMatch added more (Adds-IsMatch path cp added store v u r adds)
        (Visits-IsMatch _ _ _ _ visits)

  Concludes-resume :
      (found : List ResumeResolution) (o : ResolveOutcome) (r : ResumeResolution)
      → Concludes found o
      → o ≡ resume r
      → found ≡ r ∷ []
  Concludes-resume _ _ r nothing e = cc
  Concludes-resume _ _ r one e = cc
  Concludes-resume _ _ r several e = cc

  Fails-invalid :
      (candidates : List String) (seen : List Identity) (w : W) (r : ResumeResolution)
      → ¬ (Fails candidates seen w (resume r))
  Fails-invalid _ _ _ r (past_repeated q old fails) = Fails-invalid _ _ _ r fails
  Fails-invalid _ _ _ r (past_visited q new p fails) = Fails-invalid _ _ _ r fails

  -- A task is resumed only from a store that has been read, whose task is not completed or has a
  -- prepared or unknown effect, and whose bindings are those that the context sets; and no other store
  -- that was read matches.
  pub resolve_resume_candidates-IsMatch :
      (candidates : List String) (w : W) (r : ResumeResolution)
      → (resolve_resume_candidates directories context candidates w).0 ≡ returned (resume r)
      → IsMatch r × Visits candidates [] w (r ∷ [])
  resolve_resume_candidates-IsMatch candidates w r e =
      let (o, q, h) = resolve_resume_candidates-IsResolved candidates w in
      let same : o ≡ resume r = cc in
      elim h [
        | inl (found, visits, decided) ↦
            let only = Concludes-resume found o r decided same in
            let visits_one = subst (Visits candidates [] w) only visits in
            ((Visits-IsMatch candidates [] w (r ∷ []) visits_one).0, visits_one)
        | inr fails ↦
            absurd (Fails-invalid candidates [] w r (subst (Fails candidates [] w) same fails))
      ]
