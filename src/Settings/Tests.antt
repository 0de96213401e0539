-- ===== src/Settings/Tests.antt =====
-- A read that began before a write and ends after it.
use dreamsso.Common.{none, some, ◌≡◌, refl}
use dreamsso.Settings.{
  SettingState, Reading, cache_hit, begin_read, select_read, end_read, commit_write, invalidate,
  end_write,
}
use dreamsso.Settings.Fresh.{
  Steps, done, then_step, begun, selected, ended, committed, written, cache_hit-stored,
}

abbrev start : SettingState
start = record {
  stored = some "a";
  cached = none;
  version = 0;
  reading = λ id. none;
  committed = none;
}

abbrev reading_none : Reading
reading_none = record { version = 0; selected = none }

abbrev reading_old : Reading
reading_old = record { version = 0; selected = some (some "a") }

abbrev after_begin : SettingState
after_begin = begin_read 1 start

abbrev after_select : SettingState
after_select = select_read 1 reading_none after_begin

abbrev after_commit : SettingState
after_commit = commit_write (some "b") after_select

abbrev after_write : SettingState
after_write = end_write 100 (some "b") after_commit

abbrev after_end : SettingState
after_end = end_read 200 1 reading_old (some "a") after_write

interleaved : Steps start after_end
unfolding begin_read select_read commit_write end_write invalidate end_read
interleaved = then_step start after_begin after_end (begun 1 start) (
    then_step after_begin after_select after_end (selected 1 reading_none after_begin refl) (
      then_step after_select after_commit after_end (committed (some "b") after_select refl) (
        then_step after_commit after_write after_end (written 100 (some "b") after_commit refl) (
          then_step after_write after_end after_end
            (ended 200 1 reading_old (some "a") after_write refl refl) (done after_end)))))

idle : after_end.committed ≡ none
unfolding end_read end_write invalidate
idle = refl

hit : cache_hit 300 after_end.cached ≡ some (some "b")
unfolding begin_read select_read commit_write end_write invalidate end_read
hit = refl

cache_hit-stored_example : some "b" ≡ after_end.stored
cache_hit-stored_example =
    cache_hit-stored start after_end 300 (some "b") refl refl (λ id. refl) interleaved idle hit
