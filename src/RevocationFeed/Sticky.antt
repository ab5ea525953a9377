-- ===== src/RevocationFeed/Sticky.antt =====
-- What a poll of src/axiam_sdk/_revocation_feed.py may change of the answers.
use axiam_python_sdk.Base.{
  ℕ, String, ◌≡◌, refl, ◌∙◌, true, Option, none, some, List, [], ◌∷◌, arith, All, if◌then◌else◌,
}
use axiam_python_sdk.Ssf.Keys.{Response}
use axiam_python_sdk.RevocationFeed.{
  RevocationFeed, Digest, fetch_once, refresh, refresh_if_stale, is_revoked, due, holds, lists,
  revocation_entry_for, replaced,
}

-- One question, with the readings of the clock before and after a request, and the request's answer.
pub record Ask : Type 0 where
  pub now : ℕ
  pub done : ℕ
  pub response : Option Response
  pub sid : String

module _ (digest : Digest) where
  abbrev pub after : List Ask → RevocationFeed → RevocationFeed
  after [] f = f
  after (a ∷ asks) f = after asks (is_revoked digest a.now a.done a.response a.sid f).0

  -- The last usable set that the polls of some questions read, else the one of before.
  abbrev pub latest : List Ask → RevocationFeed → Option (List String)
  latest [] f = f.entries
  latest (a ∷ asks) f =
      let f' = (is_revoked digest a.now a.done a.response a.sid f).0 in
      latest asks (record f' {
        entries = if due a.now f then replaced (fetch_once a.response) f.entries else f.entries;
      })

-- A question whose poll, if it makes one, reads nothing usable.
abbrev pub Unusable : Ask → Type 0
Unusable a = fetch_once a.response ≡ none

module _ (digest : Digest) where
  is_revoked-entries :
      (a : Ask) (f : RevocationFeed)
      → Unusable a
      → (is_revoked digest a.now a.done a.response a.sid f).0.entries ≡ f.entries
  unfolding is_revoked refresh_if_stale refresh
  is_revoked-entries a f bad = ground arith

  after-entries :
      (asks : List Ask) (f : RevocationFeed)
      → All Unusable asks
      → (after digest asks f).entries ≡ f.entries
  after-entries [] f _ = refl
  after-entries (a ∷ asks) f (bad, rest) =
      after-entries asks (is_revoked digest a.now a.done a.response a.sid f).0 rest
      ∙ is_revoked-entries a f bad

  -- After any questions whose polls read nothing usable, and one more of them, a session is answered
  -- to be revoked exactly if the set held before lists it: a failing feed neither un-revokes a
  -- session nor revokes one, and where no set was ever read every session is admitted.
  pub is_revoked-after :
      (asks : List Ask) (a : Ask) (f : RevocationFeed)
      → All Unusable asks
      → Unusable a
      → (is_revoked digest a.now a.done a.response a.sid (after digest asks f)).1
        ≡ holds f.entries (revocation_entry_for digest a.sid)
  unfolding is_revoked refresh_if_stale refresh
  is_revoked-after asks a f bad last = ground (arith, after-entries asks f bad)

  -- A question whose poll is due and reads a usable set answers from that set alone.
  pub is_revoked-fresh :
      (a : Ask) (f : RevocationFeed) (revoked : List String)
      → due a.now f ≡ true
      → fetch_once a.response ≡ some revoked
      → (is_revoked digest a.now a.done a.response a.sid f).1
        ≡ lists revoked (revocation_entry_for digest a.sid)
  unfolding is_revoked refresh_if_stale refresh
  is_revoked-fresh a f revoked now good = ground arith
