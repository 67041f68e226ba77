-- ===== src/Ens/Caches.antt =====
-- A cached read gives its first answer for good.
use sealed_sky_verification.Common.{
  ◌≡◌, refl, false, Option, none, some, Option-cases, inl, inr, arith,
}
use sealed_sky_verification.Common.Text.{Text, text_eq, text_eq_refl}
use sealed_sky_verification.Errors.{Result}
use sealed_sky_verification.Ens.{Cache, cached, set_cached, or_null, read_through}

missed :
    (key : Text) (reply : Result (Option Text)) (cache : Cache)
    → cached key cache ≡ none
    → read_through key reply cache ≡ (set_cached key (or_null reply) cache, or_null reply)
unfolding read_through
missed key reply cache e = rw (e, read_through) refl

hit :
    (key : Text) (reply : Result (Option Text)) (value : Option Text) (cache : Cache)
    → cached key cache ≡ some value
    → read_through key reply cache ≡ (cache, value)
unfolding read_through
hit key reply value cache e = rw (e, read_through) refl

found :
    (key : Text) (value : Option Text) (cache : Cache)
    → cached key (set_cached key value cache) ≡ some value
unfolding cached
found key value cache = ground (arith, text_eq_refl key)

-- After a read, a read of the same key gives the same answer, whatever the network says then, and
-- leaves the cache as it is.
read_through_again :
    (key : Text) (reply reply' : Result (Option Text)) (cache : Cache)
    → read_through key reply' (read_through key reply cache).0 ≡ read_through key reply cache
unfolding read_through cached
read_through_again key reply reply' cache = elim (Option-cases (cached key cache)) [
  | inl e ↦ rw (missed key reply cache e) (
      hit key reply' (or_null reply) (set_cached key (or_null reply) cache)
        (found key (or_null reply) cache))
  | inr (v, e) ↦ rw (hit key reply v cache e) (hit key reply' v cache e)
]

-- A read leaves what is cached for another key.
read_through_other :
    (key other : Text) (reply : Result (Option Text)) (cache : Cache)
    → text_eq key other ≡ false
    → cached other (read_through key reply cache).0 ≡ cached other cache
unfolding read_through cached
read_through_other key other reply cache d = elim (Option-cases (cached key cache)) [
  | inl e ↦ rw (missed key reply cache e) (ground arith)
  | inr (v, e) ↦ rw (hit key reply v cache e) refl
]
