-- ===== src/Loop/Poller/Others.antt =====
-- What is done for one channel leaves the others as they are, and what a failed assert rules out.
use pallette.Base.{subst, ap, ℕ, ◌≡◌, refl, sym, ◌∙◌, Bool, true, false, not, none, some}
use pallette.Base.Tests.{◌==◌, ==_refl, if◌then◌else◌}
use pallette.Buffer.Results.{guard-some, guarded, if_cases}
use pallette.Loop.Poller.{
  ctl_del, Events, Index, new, added, deleted, Channel, EpollPoller, is_new, is_none_event, put,
  is_some, points_to, set_index, update, update_at, update_channel, remove_channel, set_events,
  remove,
}
use pallette.Loop.Poller.Sound.{put-same}

abbrev pub Others : ℕ → EpollPoller → EpollPoller → Type 0
Others i p q = (j : ℕ) → (j == i) ≡ false → q.channel j ≡ p.channel j

update_at-Others : (p q : EpollPoller) (i : ℕ) (x : Index) → update_at p i x ≡ some q → Others i p q
unfolding update_at set_index update
update_at-Others p q i new e j n =
    let (g, k) = guarded (not (is_some (p.channels (p.channel i).fd))) _ q e in
    sym (ap (λ q. q.channel j) k) ∙ rw n refl
update_at-Others p q i deleted e j n =
    let (g, k) = guarded (points_to (p.channels (p.channel i).fd) i) _ q e in
    sym (ap (λ q. q.channel j) k) ∙ rw n refl
update_at-Others p q i added e j n =
    let (g, k) = guarded (points_to (p.channels (p.channel i).fd) i) _ q e in
    if_cases (λ q. q.channel j ≡ p.channel j) (is_none_event (p.channel i).events) _ _ q k
      (λ b k. sym (ap (λ q. q.channel j) k) ∙ rw n refl) (λ b k. sym (ap (λ q. q.channel j) k))

pub set_events-Others :
    (p q : EpollPoller) (i : ℕ) (e : Events) → set_events p i e ≡ some q → Others i p q
unfolding set_events update_channel
set_events-Others p q i e h j n = update_at-Others _ q i _ h j n ∙ rw n refl

-- A channel that could be removed was known to the poller and waited for nothing, and is added to the
-- loop no more.
pub remove-Others :
    (p q : EpollPoller) (i : ℕ)
    → remove p i ≡ some q
    → Others i p q
      × (is_none_event (p.channel i).events ≡ true)
      × (is_new (p.channel i).index ≡ false)
      × ((q.channel i).added_to_loop ≡ false)
unfolding remove remove_channel set_index update
remove-Others p q i h =
    let (quiet, h1) = guard-some (is_none_event (p.channel i).events) _ q h in
    let (mine, h2) = guard-some _ _ q h1 in
    let (quiet', h3) = guard-some _ _ q h2 in
    let (known, h4) =
      guarded
        (not (is_new (put p.channel i (record (p.channel i) { added_to_loop = false }) i).index)) _
        q h3 in
    (
      λ j n. sym (ap (λ q. q.channel j) h4) ∙ chosen erased j n _ ∙ rw n refl,
      quiet,
      not_true _ (subst (λ c. not (is_new c.index) ≡ true) (put-same p.channel i _) known),
      sym (ap (λ q. (q.channel i).added_to_loop) h4) ∙ unhooked_lem _,
    )
  where
    unhooked : ℕ → Channel
    unhooked = put p.channel i (record (p.channel i) { added_to_loop = false })

    erased : EpollPoller
    erased = record p { channel = unhooked; channels = put p.channels (unhooked i).fd none }

    chosen :
        (r : EpollPoller) (j : ℕ)
        → (j == i) ≡ false
        → (b : Bool)
        → (set_index (if b then update r ctl_del i else r) i new).channel j ≡ r.channel j
    chosen r j n true = rw n refl
    chosen r j n false = rw n refl

    unhooked_lem :
        (b : Bool)
        → ((set_index (if b then update erased ctl_del i else erased) i new).channel
            i).added_to_loop
          ≡ false
    unhooked_lem true = rw (==_refl i) refl
    unhooked_lem false = rw (==_refl i) refl

    not_true : (b : Bool) → not b ≡ true → b ≡ false
    not_true true e = sym e
    not_true false e = refl
