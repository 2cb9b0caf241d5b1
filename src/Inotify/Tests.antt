-- ===== src/Inotify/Tests.antt =====
-- A run of the loop of inotify/src/main.c, and its theorem there.
use linux_c_code.Base.{◌≡◌, refl, true, false, List, [], ◌∷◌, length, arith}
use linux_c_code.Inotify.{Flags, handle_event, has, event_loop}
use linux_c_code.Inotify.Events.{Written, Fits, buffer, handle_all, event_loop-buffer}

-- IN_CREATE with a name, and IN_DELETE_SELF without one.
abbrev created : Written
created = record {
  event = record { wd = 1; mask = 0x100; cookie = 0; len = 2 };
  name = 97 ∷ 0 ∷ [];
}

abbrev gone : Written
gone = record { event = record { wd = 1; mask = 0x400; cookie = 0; len = 0 }; name = [] }

abbrev two : List Written
two = created ∷ gone ∷ []

abbrev cleared : Flags
cleared = record { need_parse = false; need_remove_wd = false }

created-Fits : Fits created
created-Fits = record {
  wd = omega arith;
  mask = omega arith;
  cookie = omega arith;
  len = omega arith;
  name = refl;
}

gone-Fits : Fits gone
gone-Fits = record {
  wd = omega arith;
  mask = omega arith;
  cookie = omega arith;
  len = omega arith;
  name = refl;
}

event_loop-buffer_example :
    event_loop 2 (buffer two) (length (buffer two)) cleared
    ≡ (created.event ∷ gone.event ∷ [], record { need_parse = true; need_remove_wd = true })
unfolding handle_all handle_event has
event_loop-buffer_example =
    event_loop-buffer two 2 cleared (created-Fits, (gone-Fits, tt)) (omega arith)
