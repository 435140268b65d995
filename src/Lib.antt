-- ===== src/Lib.antt =====
-- g0wm is a Wayland compositor. Besides what it asks of wlroots it has logic of its own: a notification
-- server with its queue, history and box on the bar; the tiling order, the tag sets and the layouts of
-- the monitors; and a runner with a calculator, a matcher and a command history. This library models
-- those parts, definition by definition, as functions on values, and proves what makes them correct.
--
-- Common: names shared by all parts. Common/Tests has the Boolean tests of C on ℕ, Common/Lists arrays
--   as lists (`length`, `get_elem?`, `remove_at` for the memmove idiom), Common/Text C strings as lists
--   of bytes without the NUL, Common/Ids the `wl_list` of wayland-server as a list of addresses, with
--   `none` for the sentinel.
--
-- Notify: src/desktop/notify/. Notify/Types has `Notification` and `NotifyState`; Notify/Store the
--   history and the queue; Notify/Timer the arming of the timer; Notify itself the rest of queue.c
--   (`show_next`, `clear`, `hold`, `dismiss`, `invoke`, ...); Notify/Server the effect on the state of
--   the calls Notify and CloseNotification (message.c) and start, stop and set_timeout (notify.c);
--   Notify/Message the actions and the hints of a call as values of their D-Bus types, with proofs in
--   Notify/Message/Actions. A step of Notify/Machine is one handler of a started server. What the
--   handlers ask of libdbus, of the timer source, of the clock and of the token callback is answered by
--   an environment that every operation takes; the signals they send and the icons they free are logged
--   in the state, newest first. The proofs: Notify/Bounds, Notify/Frame and Notify/Valid (arrays within
--   their bounds), Notify/Screen and Notify/Wedge (what keeps the box from standing empty),
--   Notify/Icons and its children (each icon is freed once), Notify/Timing (the hold keeps the time
--   left), Notify/Server and Notify/Machine with their children (the same for the calls and for
--   sequences of handlers). `show_next` runs on fuel, one for every queued notification, because each
--   turn takes one from the queue; the dismissal of all likewise; Notify/Screen proves that this is
--   enough.
--
-- Window: src/window/layout.c with the fields it uses of include/window/client.h and
--   include/output/monitor.h. Window/Order has the actions on the tiling order (`layout_swap_clients`,
--   `layout_focus_stack`, `layout_move_stack`, `layout_zoom`) and Window/Tags those on tags and layouts
--   (`layout_view`, `layout_tag`, `layout_toggle_view`, `layout_set`, ...). Clients and monitors are
--   objects by their addresses; the calls of `client_focus`, `layout_arrange` and the drawing of the
--   bar are logged in the order in which they are made. `tag_count` is a parameter, `& TAGMASK` is `% 2
--   ^ tag_count`. Window/Tile has the boxes of `layout_tile`, relative to the window area of the
--   monitor, with the rounding of the width of the masters as a parameter. Proofs are in
--   Window/Tile/Columns, in Window/Order/Swap, Moves and Cycle and in Window/Tags/Sets, Layouts and
--   Beside. The bit functions of stdbit.h run over 32 digits, as many as a tag set has.
--
-- Utf8: `util_put_codepoint` of src/core/util.c and `notify_sanitize` of src/desktop/notify/message.c;
--   proofs in Utf8/Codepoint, Utf8/Clean (by the byte tests of the code) and Utf8/Text (by the table of
--   Unicode).
--
-- Calc: the parser of src/desktop/runner/calc.c. The arithmetic on double is a parameter. The functions
--   of the parser and the turns of its loops are the tasks of one step function with open recursion,
--   run on fuel; five for every byte of the text and five more are enough (Calc/After, Calc/Ends),
--   because a call either reads a byte or goes at most four calls deeper.
--
-- Match: src/desktop/runner/match.c. Match itself has the choice of a mode by its prefix and the score of
--   a candidate, Match/Mode the mode of a line with the offset of its query, Match/Filter the candidates
--   of each mode and runner_filter with the sort as a parameter. Proofs in Match/Prefix, Match/Score,
--   Match/Filter/Lists and Match/Filter/Exact.
--
-- Edit: the editing of the line in the runner's prompt, of src/desktop/runner/runner.c, with byte
--   offsets for the cursor as in the code; Up, Down and Tab come with the text that they take. Proofs in
--   Edit/Cursor (the steps of the cursor and the cuts) and Edit/Keys.
--
-- Search: the address that `runner_search` of the same file makes of a query; proofs in Search/Bounds.
--
-- History: the command history of src/desktop/runner/history.c; proofs in History/Recall. History/File
--   has what is written to its file and read from it, and runner_weigh with bsearch as a parameter;
--   proofs in History/File/RoundTrip.
--
-- Settings: src/core/settings/read.c and write.c. Settings/Types has the blocks that libscfg makes of the
--   file and the variables, each by its name in the source; `double` and what the C library prints and
--   reads of numbers is a parameter. Settings/Getters has the getters, Settings/Names the tables of
--   names, Settings/Combo the modifiers of a binding, Settings/Word the quoting of a word by
--   `settings_put_word`; what libscfg makes of such a word is a parameter, with scfg(5) as hypothesis, and
--   what is printed without it (numbers, colors, modifiers with keys) is taken to be read as it is. What a section sets, line by line, stands in
--   Settings/Tables, what is written for it in Settings/Writing; Settings/Sections puts the sections
--   together. Settings/Bindings has the bindings of keys, buttons, gestures and pad buttons, with
--   actions and functions by their names, and the fall back to the built-in lines. The proofs: Settings/RoundTrip for any tables of lines,
--   Settings/Sections/RoundTrip for those of the program, Settings/Bindings/RoundTrip and Skips for the
--   bindings. Blank lines and comments are left to libscfg; warnings, the look, the
--   layouts, the rules, the monitors, the commands to start and the validation are not modelled.
--
-- Bar: where bar_place_title_bar of src/desktop/bar/title.c puts the title bars, which share a row in
--   the tabbed layout; proofs in Bar/Row. The clients are those that are visible and tiled.
--
-- Gesture: src/input/gesture.c. A handler answers with what it does, in order; `double` is a parameter.
--   Gesture/Client says what whole gestures are and what the client sees of the outputs, Gesture/Steps
--   treats one handler, Gesture/Whole sequences of them, Gesture/Forwarding a locked session. What
--   libinput reports are whole gestures of one device at a time.
--
-- TextInput: src/input/textinput.c. Text inputs, surfaces and clients are numbers; what wlroots makes of
--   the surfaces of the text inputs when it is told of a leave or an enter is a parameter, and the calls
--   are logged. TextInput/Keys has the keys that the input method takes. TextInput/Sees treats what the
--   input method is told, TextInput/Focus the synchronization, TextInput/Follows each handler,
--   TextInput/Machine sequences of them. The places of the popups are not modelled.
--
-- Apps: src/desktop/runner/apps.c. Apps/Desktop has what is read of a desktop file, Apps/Scan the search
--   of the directories and the choice of the applications, Apps/Dirs the directories, the commands and
--   runner_stale, Apps/Exec the command of an application. Directories are trees, files lists of lines,
--   the environment is given, and the sorts of qsort are parameters. The proofs are in Apps/Keep and
--   Apps/Choice on the applications that are offered, in Apps/NameKeys, Apps/Offers and Apps/Names on their names.
--
-- Integers are natural numbers; where the code has a signed value that can be negative the model has an
-- option (for the step to another tag a ℤ), and where it counts modulo 2 ^ 32 the model does. Not modelled are rendering, outputs, the
-- other input devices, the surfaces of xdg-shell and Xwayland, the system tray, the bar's drawing, the
-- file of the settings and the session's processes, which are mostly calls of wlroots, libdbus, cairo
-- and the system.
pub mod Apps
pub mod Bar
pub mod Calc
pub mod Common
pub mod Edit
pub mod Gesture
pub mod History
pub mod Match
pub mod Notify
pub mod Search
pub mod Settings
pub mod TextInput
pub mod Utf8
pub mod Window
