-- ===== src/Expiring.antt =====
-- What the stores with expiry share: a dict from a key to the time at which it expires, the pruning
-- of src/axiam_sdk/amqp/_replay.py, src/axiam_sdk/ssf/_receiver.py and src/axiam_sdk/_oidc_state.py,
-- and the abstract history that such a dict stands for.
use axiam_python_sdk.Base.{
  ℕ, ◌≤◌, String, ◌≡◌, refl, Bool, false, ◌&&◌, ◌||◌, not, Option, none, some, List, [], ◌∷◌, arith,
  ◌==◌, eq_iff, leb, ◌∙◌, is_some,
}
use axiam_python_sdk.Dict.{Dict, lookup, put, keep, IsUnique}
use axiam_python_sdk.Dict.Laws.{lookup-put, lookup-keep, put-IsUnique, keep-IsUnique, kept}

-- The entries whose expiry is at or before `now` are dropped.
abbrev pub live_at : ℕ → ℕ → Bool
live_at now expiry = not (leb expiry now)

unfoldable pub forget : ℕ → Dict ℕ → Dict ℕ
forget now d = keep (live_at now) d

abbrev pub lives : ℕ → Option ℕ → Bool
lives t none = false
lives t (some expiry) = live_at t expiry

-- Whether a key is there and has not expired at `t`.
abbrev pub held : Dict ℕ → String → ℕ → Bool
held d k t = lives t (lookup k d)

-- Every key that was ever accepted, with the expiry it was given. Nothing is dropped.
abbrev pub History : Type 0
History = List (String × ℕ)

pub seen_within : History → String → ℕ → Bool
seen_within [] k t = false
seen_within ((j, expiry) ∷ h) k t = (j == k && live_at t expiry) || seen_within h k t

-- From `now` on, the dict answers as the history does.
pub record Tracks (now : ℕ) (d : Dict ℕ) (h : History) : Type 0 where
  pub unique : IsUnique d
  pub agree : (k : String) (t : ℕ) → now ≤ t → held d k t ≡ seen_within h k t

pub Tracks-empty : Tracks 0 [] []
unfolding lookup seen_within
Tracks-empty = record { unique = tt; agree = λ k t _. refl }

lives-forget : (now t : ℕ) (o : Option ℕ) → now ≤ t → lives t (kept (live_at now) o) ≡ lives t o
lives-forget now t o le = ground arith

pub Tracks-forget :
    {now : ℕ} {d : Dict ℕ} {h : History} (later : ℕ)
    → now ≤ later
    → Tracks now d h
    → Tracks later (forget later d) h
unfolding forget
Tracks-forget {d} later le w = record {
  unique = keep-IsUnique (live_at later) d w.unique;
  agree = λ k t le'.
      rw (lookup-keep (live_at later) k d w.unique)
        (lives-forget later t (lookup k d) le' ∙ w.agree k t (omega arith));
}

pub Tracks-put :
    (now expiry : ℕ) (k : String) (d : Dict ℕ) (h : History)
    → lookup k d ≡ none
    → Tracks now d h
    → Tracks now (put k expiry d) ((k, expiry) ∷ h)
unfolding seen_within
Tracks-put now expiry k d h absent w = record {
  unique = put-IsUnique k expiry d w.unique;
  agree = λ j t le. ground (arith, lookup-put k j expiry d, w.agree j t le, eq_iff k j);
}

-- After the pruning a key is there exactly if it was accepted and has not expired.
pub is_some-forget :
    {now : ℕ} {d : Dict ℕ} {h : History} (later : ℕ) (k : String)
    → now ≤ later
    → Tracks now d h
    → is_some (lookup k (forget later d)) ≡ seen_within h k later
unfolding forget
is_some-forget {d} later k le w =
    rw (lookup-keep (live_at later) k d w.unique) (ground (arith, w.agree k later le))
