-- ===== src/QuickJs/Shapes/Write/Written.antt =====
-- What the methods of src/qjs/Writer.hpp make of a tree stands for that tree.
use rpcpp.Base.{◌≢◌, refl, Text, none, some, arith, inl}
use rpcpp.QuickJs.{Engine, c_str}
use rpcpp.QuickJs.Laws.{View, Laws, proto, Change-refl}
use rpcpp.QuickJs.Writer.{Writer, string, bytes, boolean, floating, integral}
use rpcpp.QuickJs.Writer.Runs.{Runs, weaken, pure-Runs, >>=-Runs}
use rpcpp.QuickJs.Writer.Setting.{OpenObject}
use rpcpp.QuickJs.Writer.Adding.{
  add_array_to_array-Runs, add_array_to_object-Runs, add_object_to_array-Runs,
  add_object_to_object-Runs, add_null_to_array-Runs, add_null_to_object-Runs,
}
use rpcpp.QuickJs.Shapes.{
  Shape, Members, a_string, a_bytestring, a_boolean, a_double, an_integer, an_optional, a_vector,
  a_map, a_struct, no_members, member, El, Els, Fits, FitMembers,
}
use rpcpp.QuickJs.Shapes.Write.{write_in, write_at, write_members}
use rpcpp.QuickJs.Shapes.Write.Filling.{
  InObject, new_array_since, new_object_since, Appended-later, Attached-later, value_in-Runs,
  value_at-Runs,
}
use rpcpp.QuickJs.Shapes.Write.Structs.{
  HasMembers, HasMembers-more, members-Rep, Filled-Rep, empty-Open,
}
use rpcpp.QuickJs.Shapes.Write.Maps.{fill_map-Runs, entries-Rep}
use rpcpp.QuickJs.Shapes.Write.Vectors.{WritesIn, fill-Runs}

module _ (e : Engine) (w : View e) (laws : Laws e w) where
  open e use {Value, Heap}
  open w use {items, field, number, made}

  mutual
    unfolding write_in

    pub write_in-Runs : (s : Shape) → WritesIn e w laws s
    write_in-Runs a_string x a st fits o room =
        value_in-Runs e w laws (string x) a_string x a st tt (λ h h' v q. q) o room
    write_in-Runs a_bytestring x a st fits o room =
        value_in-Runs e w laws (bytes x) a_bytestring x a st tt (λ h h' v q. q) o room
    write_in-Runs a_boolean x a st fits o room =
        value_in-Runs e w laws (boolean x) a_boolean x a st tt (λ h h' v q. q) o room
    write_in-Runs a_double x a st fits o room =
        value_in-Runs e w laws (floating x) a_double x a st tt (λ h h' v q. q) o room
    write_in-Runs (an_integer t) n a st fits o room =
        value_in-Runs e w laws (integral t n) (an_integer t) n a st fits.1 (λ h h' v q. q) o room
    write_in-Runs (an_optional s) none a st fits o room =
        >>=-Runs e (add_null_to_array-Runs e w laws a st o room)
          λ q s' done. pure-Runs e q.1 s' _ (e.null, done, laws.null_law)
    write_in-Runs (an_optional s) (some x) a st fits o room = write_in-Runs s x a st fits.1 o room
    write_in-Runs (a_vector s) xs a st fits o room =
        >>=-Runs e (add_array_to_array-Runs e w laws a st o room)
          λ q s1 (is, (made_it, done, change)).
            let h = st.world.heap in
            let h1 = s1.world.heap in
            let new =
              new_array_since e w laws (number a.val) q.0.val h h1 (inl o.known) made_it change in
            let empty = empty-Open e w laws q.0 h h1 is new in
            >>=-Runs e
              (fill-Runs e w laws s (write_in-Runs s) xs q.0 s1 fits.1 empty.0
                (omega (arith, empty.1, fits.0)))
              λ u s2 filled. pure-Runs e q.1 s2 _ (
                q.0.val,
                Appended-later e w laws a h h1 s2.world.heap q.0.val q.1 o.known new.0 done
                    filled.0,
                Filled-Rep e w laws s xs q.0.val h h1 s2.world.heap done.change.grows new filled,
              )
    write_in-Runs (a_map s) xs a st fits o room =
        >>=-Runs e (add_object_to_array-Runs e w laws a st o room) λ q s1 (made_it, done, change).
          let h = st.world.heap in
          let h1 = s1.world.heap in
          let new =
            new_object_since e w laws (number a.val) q.0 h h1 (inl o.known) made_it change in
          >>=-Runs e
            (fill_map-Runs e w laws s (write_at-Runs s) xs q.0 s1 fits.0 fits.1
              (new.3, new.4, new.1) new.6)
            λ u s2 filled. pure-Runs e q.1 s2 _ (
              q.0,
              Appended-later e w laws a h h1 s2.world.heap q.0 q.1 o.known new.0 done filled.0,
              entries-Rep e w laws s xs q.0 h h1 s2.world.heap done.change.grows new filled,
            )
    write_in-Runs (a_struct ms) x a st fits o room =
        >>=-Runs e (add_object_to_array-Runs e w laws a st o room) λ q s1 (made_it, done, change).
          let h = st.world.heap in
          let h1 = s1.world.heap in
          let new =
            new_object_since e w laws (number a.val) q.0 h h1 (inl o.known) made_it change in
          >>=-Runs e (write_members-Runs ms x q.0 s1 fits (new.3, new.4, new.1)) λ u s2 filled.
            pure-Runs e q.1 s2 _ (
              q.0,
              Appended-later e w laws a h h1 s2.world.heap q.0 q.1 o.known new.0 done filled.0,
              members-Rep e w laws ms x q.0 h h1 s2.world.heap done.change.grows new filled,
            )

    pub write_at-Runs :
        (s : Shape) (x : El e s) (n : Text) (v : Value) (st : Writer e)
        → Fits e s x
        → OpenObject e w laws v st.world.heap
        → c_str n ≢ proto
        → Runs e (write_at e s x n v) st (λ u. InObject e w laws s x n v st.world.heap)
    write_at-Runs a_string x n v st fits o ne =
        value_at-Runs e w laws (string x) a_string x n v st tt (λ h h' v q. q) o ne
    write_at-Runs a_bytestring x n v st fits o ne =
        value_at-Runs e w laws (bytes x) a_bytestring x n v st tt (λ h h' v q. q) o ne
    write_at-Runs a_boolean x n v st fits o ne =
        value_at-Runs e w laws (boolean x) a_boolean x n v st tt (λ h h' v q. q) o ne
    write_at-Runs a_double x n v st fits o ne =
        value_at-Runs e w laws (floating x) a_double x n v st tt (λ h h' v q. q) o ne
    write_at-Runs (an_integer t) i n v st fits o ne =
        value_at-Runs e w laws (integral t i) (an_integer t) i n v st fits.1 (λ h h' v q. q) o ne
    write_at-Runs (an_optional s) none n v st fits o ne =
        >>=-Runs e (add_null_to_object-Runs e w laws n v st o ne)
          λ c s' done. pure-Runs e tt s' _ (e.null, done, laws.null_law)
    write_at-Runs (an_optional s) (some x) n v st fits o ne = write_at-Runs s x n v st fits.1 o ne
    write_at-Runs (a_vector s) xs n v st fits o ne =
        >>=-Runs e (add_array_to_object-Runs e w laws n v st o ne)
          λ a s1 (is, (made_it, done, change)).
            let h = st.world.heap in
            let h1 = s1.world.heap in
            let new = new_array_since e w laws (number v) a.val h h1 (inl o.2) made_it change in
            let empty = empty-Open e w laws a h h1 is new in
            weaken e
              (fill-Runs e w laws s (write_in-Runs s) xs a s1 fits.1 empty.0
                (omega (arith, empty.1, fits.0)))
              λ u h2 filled. (
                a.val,
                Attached-later e w laws v n h h1 h2 a.val o.2 new.0 done filled.0,
                Filled-Rep e w laws s xs a.val h h1 h2 done.change.grows new filled,
              )
    write_at-Runs (a_map s) xs n v st fits o ne =
        >>=-Runs e (add_object_to_object-Runs e w laws n v st o ne) λ c s1 (made_it, done, change).
          let h = st.world.heap in
          let h1 = s1.world.heap in
          let new = new_object_since e w laws (number v) c h h1 (inl o.2) made_it change in
          weaken e
            (fill_map-Runs e w laws s (write_at-Runs s) xs c s1 fits.0 fits.1 (new.3, new.4, new.1)
              new.6)
            λ u h2 filled. (
              c,
              Attached-later e w laws v n h h1 h2 c o.2 new.0 done filled.0,
              entries-Rep e w laws s xs c h h1 h2 done.change.grows new filled,
            )
    write_at-Runs (a_struct ms) x n v st fits o ne =
        >>=-Runs e (add_object_to_object-Runs e w laws n v st o ne) λ c s1 (made_it, done, change).
          let h = st.world.heap in
          let h1 = s1.world.heap in
          let new = new_object_since e w laws (number v) c h h1 (inl o.2) made_it change in
          weaken e (write_members-Runs ms x c s1 fits (new.3, new.4, new.1)) λ u h2 filled. (
            c,
            Attached-later e w laws v n h h1 h2 c o.2 new.0 done filled.0,
            members-Rep e w laws ms x c h h1 h2 done.change.grows new filled,
          )

    pub write_members-Runs :
        (ms : Members) (x : Els e ms) (v : Value) (st : Writer e)
        → FitMembers e ms x
        → OpenObject e w laws v st.world.heap
        → Runs e (write_members e ms x v) st (λ u. HasMembers e w laws ms x v st.world.heap)
    write_members-Runs no_members x v st fits o =
        pure-Runs e tt st _ (Change-refl e w laws (number v) st.world.heap, tt, λ m ne. refl)
    write_members-Runs (member n s ms) x v st (ne, apart, fits, more) o =
        >>=-Runs e (write_at-Runs s x.0 n v st fits o ne) λ u s1 one.
          weaken e
            (write_members-Runs ms x.1 v s1 more (o.0, o.1, omega (arith, o.2, one.1.change.grows)))
            λ u h2 others.
              HasMembers-more e w laws n s ms x v st.world.heap s1.world.heap h2 o.2 apart one
                others
