-- ===== src/TurnFallback/WithoutUdp.antt =====
-- What `withoutUdp` leaves of a configuration.
use sozvon.Base.{
  ◌≡◌, refl, sym, ap, ◌∙◌, inl, inr, Bool, false, ◌&&◌, ◌||◌, not, Option, some, List, [], ◌∷◌,
  ◌++◌, any, arith, Bool-cases,
}
use sozvon.TurnFallback.{
  Text, is_udp_relay, Server, urls_of, Conf, servers_of, has_udp_relay, offers_udp, is_relay,
  not_udp, keep, strip_servers, without_udp, is_relay_url, can_drop_udp, others_of, relay,
}

-- All the URLs of a list of servers, in order.
abbrev pub all_urls : List Server → List Text
all_urls [] = []
all_urls (s ∷ l) = urls_of s ++ all_urls l

not_udp-append : (a b : List Text) → not_udp (a ++ b) ≡ not_udp a ++ not_udp b
unfolding not_udp
not_udp-append [] b = refl
not_udp-append (u ∷ a) b = ground (arith, not_udp-append a b)

all_urls-keep :
    (s : Server) (us : List Text) (rest : List Server)
    → all_urls (keep s us rest) ≡ us ++ all_urls rest
unfolding keep urls_of
all_urls-keep s [] rest = refl
all_urls-keep s (u ∷ us) rest = refl

all_urls-strip_servers : (l : List Server) → all_urls (strip_servers l) ≡ not_udp (all_urls l)
unfolding strip_servers
all_urls-strip_servers [] = unfold not_udp in refl
all_urls-strip_servers (s ∷ l) =
    all_urls-keep s (not_udp (urls_of s)) (strip_servers l)
    ∙ ap (λ (r : List Text). not_udp (urls_of s) ++ r) (all_urls-strip_servers l)
    ∙ sym (not_udp-append (urls_of s) (all_urls l))

-- Of the URLs exactly the relays over UDP are gone; the others stand in their order.
pub all_urls-without_udp :
    (conf : Option Conf)
    → all_urls (servers_of (some (without_udp conf))) ≡ not_udp (all_urls (servers_of conf))
unfolding without_udp
all_urls-without_udp conf = unfold servers_of in all_urls-strip_servers (servers_of conf)

any-append {ℓ} : {A : Type ℓ} (p : A → Bool) (a b : List A) → any p (a ++ b) ≡ (any p a || any p b)
any-append p [] b = refl
any-append p (x ∷ a) b = ground (arith, any-append p a b)

any-all_urls :
    (p : Text → Bool) (l : List Server) → any (λ s. any p (urls_of s)) l ≡ any p (all_urls l)
any-all_urls p [] = refl
any-all_urls p (s ∷ l) =
    ap (λ b. any p (urls_of s) || b) (any-all_urls p l)
    ∙ sym (any-append p (urls_of s) (all_urls l))

any-not_udp : (us : List Text) → any is_udp_relay (not_udp us) ≡ false
unfolding not_udp
any-not_udp [] = refl
any-not_udp (u ∷ us) = elim (Bool-cases (is_udp_relay u)) [
  | inl e ↦ rw (e, not_udp) (any-not_udp us)
  | inr e ↦ rw (e, not_udp, e) (any-not_udp us)
]

-- What `withoutUdp` gives offers no UDP, so that nothing gives UDP up a second time.
pub offers_udp-without_udp : (conf : Option Conf) → offers_udp (some (without_udp conf)) ≡ false
unfolding offers_udp has_udp_relay is_relay
offers_udp-without_udp conf =
    rw
      (
        any-all_urls is_udp_relay (servers_of (some (without_udp conf))),
        all_urls-without_udp conf,
        any-not_udp (all_urls (servers_of conf)),
      )
      (unfold without_udp in refl)

any-not_udp_relay :
    (us : List Text)
    → any is_relay_url (not_udp us) ≡ any (λ u. is_relay_url u && not (is_udp_relay u)) us
unfolding not_udp
any-not_udp_relay [] = refl
any-not_udp_relay (u ∷ us) = ground (arith, any-not_udp_relay us)

-- UDP can be dropped exactly when some URL of the configuration is a relay that is not over UDP.
pub can_drop_udp_iff :
    (conf : Option Conf)
    → can_drop_udp conf
      ≡ any (λ u. is_relay_url u && not (is_udp_relay u)) (all_urls (servers_of conf))
unfolding can_drop_udp
can_drop_udp_iff conf =
    any-all_urls is_relay_url (servers_of (some (without_udp conf)))
    ∙ ap (any is_relay_url) (all_urls-without_udp conf)
    ∙ any-not_udp_relay (all_urls (servers_of conf))

not_udp_twice : (us : List Text) → not_udp (not_udp us) ≡ not_udp us
unfolding not_udp
not_udp_twice [] = refl
not_udp_twice (u ∷ us) = elim (Bool-cases (is_udp_relay u)) [
  | inl e ↦ rw (e, not_udp) (not_udp_twice us)
  | inr e ↦ rw (e, not_udp, e) (ap (λ (r : List Text). u ∷ r) (not_udp_twice us))
]

strip_servers-keep :
    (s : Server) (us : List Text) (rest : List Server)
    → not_udp us ≡ us
    → strip_servers (keep s us rest) ≡ keep s us (strip_servers rest)
unfolding strip_servers keep urls_of
strip_servers-keep s [] rest e = refl
strip_servers-keep s (u ∷ us) rest e = rw (e, keep) refl

strip_servers_twice : (l : List Server) → strip_servers (strip_servers l) ≡ strip_servers l
unfolding strip_servers
strip_servers_twice [] = refl
strip_servers_twice (s ∷ l) =
    strip_servers-keep s (not_udp (urls_of s)) (strip_servers l) (not_udp_twice (urls_of s))
    ∙ ap (keep s (not_udp (urls_of s))) (strip_servers_twice l)

-- Dropping UDP twice is dropping it once.
without_udp_twice : (conf : Option Conf) → without_udp (some (without_udp conf)) ≡ without_udp conf
unfolding without_udp servers_of others_of
without_udp_twice conf =
    ap (λ l. record { servers = some l; policy = relay; others = others_of conf })
      (strip_servers_twice (servers_of conf))
