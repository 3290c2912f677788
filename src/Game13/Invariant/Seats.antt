-- ===== src/Game13/Invariant/Seats.antt =====
-- Seats and votes under the list operations of a game (game13.cpp).
use casual_game.Prelude.{
  ℕ, zero, suc, ◌≡◌, ◌≢◌, refl, true, some, List, [], ◌∷◌, arith, >>=-eq-some, drop,
}
use casual_game.Game13.Table.{Client, PlayerInfo, no_vote, Game, update_at, clear_votes}
use casual_game.Game13.Dealing.{deal, deal_player, all_ready, all_compare}

abbrev pub AllSeated : List PlayerInfo → Type 0
AllSeated [] = Unit
AllSeated (p ∷ ps) = (p.cuid ≢ 0) × AllSeated ps

abbrev pub NoneVoted : List PlayerInfo → Type 0
NoneVoted [] = Unit
NoneVoted (p ∷ ps) = (p.vote ≡ no_vote) × NoneVoted ps

pub update_at-AllSeated :
    (i : ℕ) (f : PlayerInfo → PlayerInfo) (ps : List PlayerInfo)
    → ((p : PlayerInfo) → (f p).cuid ≡ p.cuid)
    → AllSeated ps
    → AllSeated (update_at i f ps)
update_at-AllSeated i f [] k a = tt
update_at-AllSeated zero f (p ∷ ps) k a = (λ e. a.0 (cc (k p)), a.1)
update_at-AllSeated (suc i) f (p ∷ ps) k a = (a.0, update_at-AllSeated i f ps k a.1)

pub update_at-NoneVoted :
    (i : ℕ) (f : PlayerInfo → PlayerInfo) (ps : List PlayerInfo)
    → ((p : PlayerInfo) → (f p).vote ≡ p.vote)
    → NoneVoted ps
    → NoneVoted (update_at i f ps)
update_at-NoneVoted i f [] k a = tt
update_at-NoneVoted zero f (p ∷ ps) k a = (cc (k p, a.0), a.1)
update_at-NoneVoted (suc i) f (p ∷ ps) k a = (a.0, update_at-NoneVoted i f ps k a.1)

pub clear_votes-AllSeated : (ps : List PlayerInfo) → AllSeated ps → AllSeated (clear_votes ps)
unfolding clear_votes
clear_votes-AllSeated [] a = tt
clear_votes-AllSeated (p ∷ ps) a = (a.0, clear_votes-AllSeated ps a.1)

pub clear_votes-NoneVoted : (ps : List PlayerInfo) → NoneVoted (clear_votes ps)
unfolding clear_votes
clear_votes-NoneVoted [] = tt
clear_votes-NoneVoted (p ∷ ps) = (refl, clear_votes-NoneVoted ps)

pub all_ready-AllSeated :
    (clients : List Client) (ps : List PlayerInfo) → all_ready clients ps ≡ true → AllSeated ps
unfolding all_ready
all_ready-AllSeated clients [] h = tt
all_ready-AllSeated clients (p ∷ ps) h =
    (ground arith, all_ready-AllSeated clients ps (ground arith))

pub all_compare-AllSeated : (ps : List PlayerInfo) → all_compare ps ≡ true → AllSeated ps
unfolding all_compare
all_compare-AllSeated [] h = tt
all_compare-AllSeated (p ∷ ps) h = (ground arith, all_compare-AllSeated ps (ground arith))

deal_player-keeps :
    (g : Game) (p : PlayerInfo) (clients : List Client) (deck : List ℕ) {p' : PlayerInfo}
    {clients' : List Client}
    → deal_player g p clients deck ≡ some (p', clients')
    → (p'.cuid ≡ p.cuid) × (p'.vote ≡ p.vote)
unfolding deal_player
deal_player-keeps g p clients deck e = ground arith

pub deal-keeps :
    (g : Game) (ps : List PlayerInfo) (clients : List Client) (deck : List ℕ)
    {ps' : List PlayerInfo} {clients' : List Client}
    → deal g ps clients deck ≡ some (ps', clients')
    → (AllSeated ps → AllSeated ps') × (NoneVoted ps → NoneVoted ps')
unfolding deal
deal-keeps g [] clients deck {ps' = []} e = (λ a. a, λ a. a)
deal-keeps g [] clients deck {ps' = x ∷ xs} e = absurd (ground (arith, e))
deal-keeps g (p ∷ ps) clients deck {ps'} {clients'} e =
    let (r, e1, e') = >>=-eq-some (deal_player g p clients deck) _ e in
    let (rest, e2, e'') = >>=-eq-some (deal g ps r.1 (drop 13 deck)) _ e' in
    let same : ps' ≡ r.0 ∷ rest.0 = ground (arith, e'') in
    let (cuid, vote) = deal_player-keeps g p clients deck {p' = r.0} {clients' = r.1} e1 in
    let (seated, voted) =
      deal-keeps g ps r.1 (drop 13 deck) {ps' = rest.0} {clients' = rest.1} e2 in
    rw same (λ a. (λ z. a.0 (cc (cuid, z)), seated a.1), λ a. (cc (vote, a.0), voted a.1))
