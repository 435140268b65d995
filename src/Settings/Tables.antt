-- ===== src/Settings/Tables.antt =====
-- src/core/settings/read.c: what the sections of the config file set, line by line.
mod Apply
unfoldable pub use Apply.*
use g0wm.Common.{List, [], ◌∷◌}
use g0wm.Settings.Types.{lit}

-- `settings_apply_windows`
abbrev pub windows_lines : List Line
windows_lines =
    line (lit "borderpx") (lit "border_width") uint
    ∷ line (lit "cornerstyle") (lit "corner_style") (enum (lit "settings_corner_styles"))
    ∷ line (lit "cornerpx") (lit "corner_radius") uint
    ∷ line (lit "gaps") (lit "gaps") (number truncated)
    ∷ line (lit "gappx") (lit "gap_size") uint
    ∷ line (lit "smartgaps") (lit "smart_gaps") flag
    ∷ line (lit "titlebar") (lit "title_bar") flag
    ∷ line (lit "titlepadding") (lit "title_padding") uint
    ∷ line (lit "titlecenter") (lit "title_center") flag
    ∷ line (lit "titleclose") (lit "title_close") flag
    ∷ line (lit "titleclosecolor") (lit "title_close_color") color
    ∷ line (lit "privatecolor") (lit "private_color") color
    ∷ line (lit "privateround") (lit "private_round") (number at_most_one)
    ∷ line (lit "alwaysprivate") (lit "always_private") flag
    ∷ line (lit "publiccolor") (lit "public_color") color
    ∷ line (lit "privatetitle") (lit "private_title") string
    ∷ line (lit "movethreshold") (lit "move_threshold") (number truncated)
    ∷ line (lit "movesnap") (lit "move_snap") (number truncated)
    ∷ []

-- `settings_apply_bar`
abbrev pub bar_lines : List Line
bar_lines =
    line (lit "showbar") (lit "bar_enabled") flag
    ∷ line (lit "topbar") (lit "bar_top") flag
    ∷ line (lit "barwintitle") (lit "bar_window_title") flag
    ∷ line (lit "bartagdots") (lit "bar_tag_dots") flag
    ∷ line (lit "bartagdotsize") (lit "bar_tag_dot_size") uint
    ∷ line (lit "bartagdotgap") (lit "bar_tag_dot_gap") uint
    ∷ line (lit "bartagdotwidth") (lit "bar_tag_dot_width") (number at_least_one)
    ∷ line (lit "bartagdotround") (lit "bar_tag_dot_round") (number zero_to_one)
    ∷ line (lit "barurgentpulse") (lit "bar_urgent_pulse") uint
    ∷ line (lit "barltsymbol") (lit "bar_layout_symbol") flag
    ∷ line (lit "barboxradius") (lit "bar_box_radius") uint
    ∷ line (lit "barpadding") (lit "bar_padding") uint
    ∷ line (lit "barheight") (lit "bar_height") (number narrowed)
    ∷ line (lit "barsinglemon") (lit "bar_single_monitor") flag
    ∷ line (lit "barstatus") (lit "bar_status") (enum (lit "settings_bar_statuses"))
    ∷ line (lit "showsystray") (lit "systray_enabled") flag
    ∷ line (lit "systrayspacing") (lit "systray_spacing") uint
    ∷ line (lit "systraypadding") (lit "systray_padding") uint
    ∷ line (lit "systrayiconsize") (lit "systray_icon_size") uint
    ∷ line (lit "shownotifications") (lit "notifications_enabled") flag
    ∷ line (lit "notification_timeout") (lit "notification_timeout") uint
    ∷ line (lit "notification_linewidth") (lit "notification_line_width") uint
    ∷ line (lit "notification_lineradius") (lit "notification_line_radius") uint
    ∷ line (lit "notification_actionsign") (lit "notification_action_sign") string
    ∷ line (lit "runner_placeholder") (lit "runner_placeholder") string
    ∷ line (lit "runner_max_candidates") (lit "runner_max_candidates") uint
    ∷ line (lit "runner_pillheight") (lit "runner_pill_height") uint
    ∷ line (lit "runner_pillpadding") (lit "runner_pill_padding") uint
    ∷ line (lit "runner_pillround") (lit "runner_pill_round") (number at_most_one)
    ∷ line (lit "runner_fuzzy") (lit "runner_fuzzy") flag
    ∷ line (lit "runner_icons") (lit "runner_icons") (enum (lit "settings_runner_icons"))
    ∷ line (lit "runner_iconsize") (lit "runner_icon_size") uint
    ∷ line (lit "runner_iconround") (lit "runner_icon_round") (number zero_to_one)
    ∷ line (lit "runner_iconborder") (lit "runner_icon_border") uint
    ∷ line (lit "runner_history_size") (lit "runner_history_size") uint
    ∷ line (lit "runner_shell") (lit "runner_shell") string
    ∷ line (lit "runner_terminal") (lit "runner_terminal") string
    ∷ line (lit "runner_termprefix") (lit "runner_terminal_prefix") string
    ∷ line (lit "runner_runprefix") (lit "runner_run_prefix") string
    ∷ line (lit "runner_calcprefix") (lit "runner_calc_prefix") string
    ∷ line (lit "runner_searchprefix") (lit "runner_search_prefix") string
    ∷ line (lit "runner_searchurl") (lit "runner_search_url") string
    ∷ line (lit "runner_windowprefix") (lit "runner_window_prefix") string
    ∷ line (lit "runner_tagprefix") (lit "runner_tag_prefix") string
    ∷ line (lit "runner_files") (lit "runner_files") flag
    ∷ line (lit "runner_paths") (lit "runner_paths") string
    ∷ line (lit "runner_calc_precision") (lit "runner_calc_precision") uint
    ∷ []

-- `settings_apply_opacity`, and its part for INTEGRATED_BACKGROUND.
abbrev pub opacity_lines : List Line
opacity_lines =
    line (lit "opacity_enabled") (lit "opacity_enabled") flag
    ∷ line (lit "opacity_focus") (lit "opacity_focus") (number narrowed)
    ∷ line (lit "opacity_unfocus") (lit "opacity_unfocus") (number narrowed)
    ∷ line (lit "opacity_deco") (lit "opacity_decorations") (number narrowed)
    ∷ []

abbrev pub blur_lines : List Line
blur_lines =
    line (lit "opacity_type") (lit "opacity_type") (enum (lit "settings_opacity_kinds"))
    ∷ line (lit "blur_radius") (lit "blur_radius") uint
    ∷ line (lit "blur_passes") (lit "blur_passes") uint
    ∷ line (lit "blur_saturation") (lit "blur_saturation") (number narrowed)
    ∷ line (lit "blur_brightness") (lit "blur_brightness") (number narrowed)
    ∷ []

-- What `settings_apply_input` reads before the keymap, the keymap, and the rest.
abbrev pub input_first_lines : List Line
input_first_lines = line (lit "sloppyfocus") (lit "sloppy_focus") flag ∷ []

abbrev pub xkb_lines : List Line
xkb_lines =
    line (lit "rules") (lit "xkb_rules.rules") string
    ∷ line (lit "model") (lit "xkb_rules.model") string
    ∷ line (lit "layout") (lit "xkb_rules.layout") string
    ∷ line (lit "variant") (lit "xkb_rules.variant") string
    ∷ line (lit "options") (lit "xkb_rules.options") string
    ∷ []

abbrev pub input_lines : List Line
input_lines =
    line (lit "repeat_rate") (lit "repeat_rate") (number truncated)
    ∷ line (lit "repeat_delay") (lit "repeat_delay") (number truncated)
    ∷ line (lit "cursor_theme") (lit "cursor_theme") string
    ∷ line (lit "cursor_size") (lit "cursor_size") (number truncated)
    ∷ line (lit "hide_cursor_when_typing") (lit "hide_cursor_when_typing") flag
    ∷ line (lit "tap_to_click") (lit "tap_to_click") flag
    ∷ line (lit "tap_and_drag") (lit "tap_and_drag") flag
    ∷ line (lit "drag_lock") (lit "drag_lock") flag
    ∷ line (lit "natural_scrolling") (lit "natural_scrolling") flag
    ∷ line (lit "disable_while_typing") (lit "disable_while_typing") flag
    ∷ line (lit "left_handed") (lit "left_handed") flag
    ∷ line (lit "middle_button_emulation") (lit "middle_button_emulation") flag
    ∷ line (lit "scroll_method") (lit "scroll_method") (enum (lit "settings_scroll_methods"))
    ∷ line (lit "click_method") (lit "click_method") (enum (lit "settings_click_methods"))
    ∷ line (lit "send_events_mode") (lit "send_events_mode") (enum (lit "settings_send_events"))
    ∷ line (lit "accel_profile") (lit "accel_profile") (enum (lit "settings_accel_profiles"))
    ∷ line (lit "accel_speed") (lit "accel_speed") (number exact)
    ∷ line (lit "touchpad_natural_scrolling") (lit "touchpad_natural_scrolling") flag
    ∷ line (lit "touchpad_accel_profile") (lit "touchpad_accel_profile")
        (enum (lit "settings_accel_profiles"))
    ∷ line (lit "touchpad_accel_speed") (lit "touchpad_accel_speed") (number exact)
    ∷ line (lit "pinchzoom_mod") (lit "pinch_zoom_modifier") mods
    ∷ line (lit "button_map") (lit "tap_button_map") (enum (lit "settings_button_maps"))
    ∷ line (lit "tablet_output") (lit "tablet_output") string
    ∷ line (lit "tablet_left_handed") (lit "tablet_left_handed") flag
    ∷ line (lit "touch_output") (lit "touch_output") string
    ∷ []

-- `settings_apply_misc`
abbrev pub misc_lines : List Line
misc_lines =
    line (lit "log_level") (lit "log_level") (enum (lit "settings_log_levels"))
    ∷ line (lit "bypass_surface_visibility") (lit "bypass_surface_visibility") flag
    ∷ line (lit "allow_tearing") (lit "allow_tearing") flag
    ∷ line (lit "auto_vrr") (lit "auto_vrr") flag
    ∷ []
